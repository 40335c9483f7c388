-- ===== src/Drivers/Ahci/Setup/Disks.antt =====
-- `init` finds the disks: the ports that are there and have a disk, in order.
use griffin.Common.{
  ℕ, zero, suc, ◌+◌, ◌<◌, ◌≡◌, refl, ap, sym, ◌∙◌, Bool, true, ◌&&◌, Bool-cases, inl, inr, Option,
  List, [], ◌∷◌, ◌++◌, Outcome, done, panic, ◌>>=◌, arith, ◌==◌, if◌then◌else◌,
}
use mathlib.Core.List.{append_assoc, append-nil}
use griffin.Arch.Pmm.{Machine}
use griffin.Mm.Flags.{Bitflags}
use griffin.Mm.Vmm.Tables.{Place, IsPaging, FewFree}
use griffin.Drivers.Ahci.Port.{has_bit}
use griffin.Drivers.Ahci.Setup.{sata_ata, ControllerRegisters, setup_slots, init_port, init_ports}
use griffin.Drivers.Ahci.Setup.Slots.{HasHeaders, enabled_port}
use griffin.Drivers.Ahci.Setup.Devices.{IsSetUp, set_up, no_page, new_device-IsSetUp}

-- What the controller promises: which ports are there and what they are does not change, and each
-- port's command list lies at an address of its own choice.
pub record IsController {World : Type 0} (hba : ControllerRegisters World) (there : ℕ)
    (kind base : ℕ → ℕ) : Type 0 where
  pub implemented : (w : World) → (hba.port_implemented w).0 ≡ there
  pub signature : (i : ℕ) (w : World) → ((hba.port i).signature w).0 ≡ kind i
  pub headers : (i : ℕ) → HasHeaders (hba.port i).regs (base i)

abbrev pub is_disk : ℕ → (ℕ → ℕ) → ℕ → Bool
is_disk there kind i = has_bit there i && (kind i == sata_ata)

-- The ports from `i` on with a disk, by the two registers.
unfoldable pub disks : ℕ → (ℕ → ℕ) → ℕ → ℕ → List ℕ
disks there kind i zero = []
disks there kind i (suc left) =
    let rest = disks there kind (i + 1) left in if is_disk there kind i then i ∷ rest else rest

module _ {World : Type 0} (flags : Bitflags) (pagemap : ℕ) (hba : ControllerRegisters World)
    (there : ℕ) (kind base : ℕ → ℕ) where
  -- The state of the world when a port was asked whether it is there and what it is.
  abbrev asked : ℕ → World → World
  asked i w = ((hba.port i).signature (hba.port_implemented w).1).1

  -- At port `i`, at most three pages were free after some of its slots.
  pub record IsShort (i : ℕ) (w : World) (m : Machine) : Type 0 where
    pub slots : ℕ
    pub state : World × Machine
    pub some_slots : slots < 32
    pub reached :
        setup_slots flags pagemap
          (hba.port i).regs
          0
          slots
          (enabled_port (hba.port i) (asked i w), m)
        ≡ done state
    pub few : FewFree 3 state.1.pmm

  -- The outcomes of the loop: the disks are added in order and the tables are well formed; or a panic
  -- at a disk behind some of the ports, where memory was short.
  pub data IsFound (i left : ℕ) (devices : List ℕ) (w : World) (m : Machine)
      : Outcome (List ℕ × (World × Machine)) → Type 0 where
    found :
        (w' : World) (m' : Machine) (place' : ℕ → Option Place)
        → IsPaging pagemap place' m'
        → IsFound i left devices w m (done (devices ++ disks there kind i left, (w', m')))
    short :
        (k : ℕ) (w' : World) (m' : Machine)
        → k < left
        → init_ports flags pagemap hba i k (devices, (w, m))
          ≡ done (devices ++ disks there kind i k, (w', m'))
        → is_disk there kind (i + k) ≡ true
        → IsShort (i + k) w' m'
        → IsFound i left devices w m panic

  -- One port.
  data IsPort (i : ℕ) (devices : List ℕ) (w : World) (m : Machine)
      : Outcome (List ℕ × (World × Machine)) → Type 0 where
    port_done :
        (devices' : List ℕ) (w' : World) (m' : Machine) (place' : ℕ → Option Place)
        → devices' ≡ (if is_disk there kind i then devices ++ (i ∷ []) else devices)
        → IsPaging pagemap place' m'
        → IsPort i devices w m (done (devices', (w', m')))
    port_short : is_disk there kind i ≡ true → IsShort i w m → IsPort i devices w m panic

  module _ (ok : IsController hba there kind base) where
    init_port-IsPort :
        {place : ℕ → Option Place} (i : ℕ) (devices : List ℕ) (w : World) (m : Machine)
        → IsPaging pagemap place m
        → IsPort i devices w m (init_port flags pagemap hba i (devices, (w, m)))
    unfolding init_port
    init_port-IsPort {place} i devices w m paging = elim (Bool-cases (has_bit there i)) [
      | inr e ↦
          rw (ok.implemented w, e)
            (port_done devices (hba.port_implemented w).1 m place (rw e refl) paging)
      | inl e ↦ elim (Bool-cases (kind i == sata_ata)) [
        | inr other ↦
            rw (ok.implemented w, e, ok.signature i (hba.port_implemented w).1, other)
              (port_done devices (asked i w) m place (rw (e, other) refl) paging)
        | inl disk ↦
            rw (ok.implemented w, e, ok.signature i (hba.port_implemented w).1, disk)
              (go (rw (e, disk) refl)
                (new_device-IsSetUp flags (hba.port i) (base i) (asked i w) (ok.headers i) paging))
      ]
    ]
      where
        go :
            {r : Outcome (World × Machine)}
            → is_disk there kind i ≡ true
            → IsSetUp flags pagemap
                (hba.port i).regs
                (base i)
                0
                32
                (enabled_port (hba.port i) (asked i w), m)
                r
            → IsPort i devices w m (r >>= λ s. done (devices ++ (i ∷ []), s))
        go disk (set_up (w', m') t) =
            port_done (devices ++ (i ∷ [])) w' m' t.place' (rw disk refl) t.paging
        go disk (no_page k s' lt ran few) =
            port_short disk
              (record { slots = k; state = s'; some_slots = lt; reached = ran; few = few })

  -- The disk of one port and those behind it.
  disks-cons :
      (i left : ℕ) (devices : List ℕ)
      → (if is_disk there kind i then devices ++ (i ∷ []) else devices)
          ++ disks there kind (i + 1) left
        ≡ devices ++ disks there kind i (suc left)
  unfolding disks
  disks-cons i left devices = elim (Bool-cases (is_disk there kind i)) [
    | inl e ↦ rw e (append_assoc devices (i ∷ []) (disks there kind (i + 1) left))
    | inr e ↦ rw e refl
  ]

  behind :
      {i left : ℕ} {devices devices' : List ℕ} {w w' : World} {m m' : Machine}
      {r : Outcome (List ℕ × (World × Machine))}
      → devices' ≡ (if is_disk there kind i then devices ++ (i ∷ []) else devices)
      → init_port flags pagemap hba i (devices, (w, m)) ≡ done (devices', (w', m'))
      → IsFound (i + 1) left devices' w' m' r
      → IsFound i (suc left) devices w m r
  unfolding init_ports
  behind {i} {left} {devices} same ran (found w' m' place' paging) =
      rw (ap (λ (l : List ℕ). l ++ disks there kind (i + 1) left) same ∙ disks-cons i left devices)
        (found w' m' place' paging)
  behind {i} {devices} {devices'} {w} {m} same ran (short k w' m' lt later disk few) =
      let next : i + 1 + k ≡ i + suc k = omega arith in
      let all =
        ap (λ (l : List ℕ). l ++ disks there kind (i + 1) k) same ∙ disks-cons i k devices in
      short (suc k) w' m' (omega arith)
        (rw (init_ports, ran) (later ∙ ap (λ (l : List ℕ). done (l, (w', m'))) all))
        (rw (← next) disk) (rw (← next) few)

  -- On a controller that keeps its promises and on well-formed tables of the kernel, the loop of `init`
  -- adds the ports that are there and have a disk's signature, in order and no others, and leaves
  -- well-formed tables; or it panics at such a port, and then at most three pages were free after some
  -- of the port's slots.
  pub init_ports-IsFound :
      IsController hba there kind base
      → {place : ℕ → Option Place} (i left : ℕ) (devices : List ℕ) (w : World) (m : Machine)
      → IsPaging pagemap place m
      → IsFound i left devices w m (init_ports flags pagemap hba i left (devices, (w, m)))
  unfolding init_ports disks
  init_ports-IsFound ok {place} i zero devices w m paging =
      let f : IsFound i zero devices w m (done (devices ++ [], (w, m))) = found w m place paging in
      rw (append-nil devices) at f
  init_ports-IsFound ok i (suc left) devices w m paging =
      go
        (λ place' devices' w' m'.
          init_ports-IsFound ok {place = place'} (i + 1) left devices' w' m')
        (init_port-IsPort ok i devices w m paging) refl
    where
      go :
          {r : Outcome (List ℕ × (World × Machine))}
          → ((place' : ℕ → Option Place) (devices' : List ℕ) (w' : World) (m' : Machine)
              → IsPaging pagemap place' m'
              → IsFound
                  (i + 1)
                  left
                  devices'
                  w'
                  m'
                  (init_ports flags pagemap hba (i + 1) left (devices', (w', m'))))
          → IsPort i devices w m r
          → init_port flags pagemap hba i (devices, (w, m)) ≡ r
          → IsFound i (suc left) devices w m (r >>= init_ports flags pagemap hba (i + 1) left)
      go later (port_short disk few) e =
          let here : i ≡ i + 0 = omega arith in
          short 0 w m (omega arith)
            (ap (λ (l : List ℕ). done (l, (w, m))) (sym (append-nil devices))) (rw (sym here) disk)
            (rw (sym here) few)
      go later (port_done devices' w' m' place' same paging') e =
          behind same e (later place' devices' w' m' paging')
