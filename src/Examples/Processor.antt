-- ===== src/Examples/Processor.antt =====
-- A processor's tables and registers, its timer, and the firmware's tables.
use griffin.Common.{
  ℕ, ◌+◌, ◌-◌, ◌*◌, ◌/◌, ◌%◌, ◌^◌, inl, inr, refl, length, ℕ_discrete, ◌≡◌, ◌==◌, if◌then◌else◌,
  Option, [], ◌∷◌, done, arith, u32, ◌>>>◌,
}
use griffin.Arch.Cpu.{Cpuid, Msrs}
use griffin.Arch.Acpi.{Rsdp, AcpiMemory, find_table}
use griffin.Arch.Acpi.Search.{IsFirst, HasSignature, table_at, find_table-IsFirst}
use griffin.Drivers.Hpet.{Hpet, sleep}
use griffin.Drivers.Hpet.Setup.{hpet_signature}
use griffin.Drivers.Hpet.Sleep.{IsCounter, Reaches, sleep-Reaches}

-- A processor with supervisor-mode protection and nothing else.
abbrev smap_only : ℕ → ℕ → Cpuid
smap_only eax ecx = record { eax = 0; ebx = 0x100000; ecx = 0; edx = 0 }

-- One register.
abbrev one_msr : Msrs (ℕ × ℕ)
one_msr = record { rdmsr_halves = λ msr w. w; wrmsr_halves = λ msr low high w. (low, high) }

-- A 64-bit counter that gives each value on two reads and wraps, with a period of 10^7 femtoseconds.
abbrev timer : Hpet ℕ
timer = record {
  general_capabilities = λ w. 10000000 * 2 ^ 32;
  main_counter_value = λ w. ((w / 2) % 2 ^ 64, w + 1);
}

timer-IsCounter : IsCounter timer (2 ^ 64 - 1) 1
timer-IsCounter = record {
  repeats = λ w. 1 - w % 2;
  word = λ w. omega arith;
  bounded = λ w. omega arith;
  counts = λ w low. elim (ℕ_discrete (w % 2) 0) [
    | yes even ↦ inr (omega arith, omega arith)
    | no odd ↦ inl (omega arith)
  ];
}

sleep-Reaches_example :
    Reaches timer
      (3 + 2 * 1000000000000 / u32 ((10000000 * 2 ^ 32) >>> 32))
      (sleep timer 2 400002 7)
sleep-Reaches_example =
    sleep-Reaches timer-IsCounter 2 400002 7 (omega arith) (omega arith) (omega arith) (omega arith)
      (omega arith)

-- A root table with two entries, at 0x1000, for the tables at 0x2000 and 0x3000.
abbrev firmware : AcpiMemory
firmware = record {
  sdt = λ a. record {
    signature =
        if a == 0x3000 then 0x48 ∷ 0x50 ∷ 0x45 ∷ 0x54 ∷ [] else 0x46 ∷ 0x41 ∷ 0x43 ∷ 0x50 ∷ [];
    length = 44;
  };
  word32 = λ a. if a == 0x1024 then 0x2000 else 0x3000;
  word64 = λ a. 0;
}

abbrev rsdp : Rsdp
rsdp = record { revision = 0; rsdt_addr = 0x1000; xsdt_addr = 0 }

four_bytes : (a : ℕ) → length (firmware.sdt a).signature ≡ 4
four_bytes a = ground arith

find_table-IsFirst_example :
    (r : Option ℕ) × (find_table firmware rsdp hpet_signature ≡ done r)
    × IsFirst
        (HasSignature firmware (table_at firmware rsdp) hpet_signature)
        (table_at firmware rsdp)
        0
        2
        r
find_table-IsFirst_example =
    find_table-IsFirst firmware rsdp hpet_signature refl four_bytes (omega arith)
