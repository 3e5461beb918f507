-- ===== src/Fault/Examples.antt =====
-- Faults in an allocation of four pages, whose page 0 is clean and whose page 3 is in the file.
use sbma.Common.{unchecked}
use sbma.Common.{◌≡◌, refl, true, false, arith, done}
use sbma.Os.Ideal.{World, ideal, ideal-IsPosix, ideal-IsReliable}
use sbma.Vmm.Examples.{start, start-IsValid, start-IsCoherent}
use sbma.Api.Process.{Process}
use sbma.Api.Examples.{alone, no_peers}
use sbma.Fault.{vmm_sigsegv}
use sbma.Fault.Write.{Written, vmm_sigsegv-Written}

abbrev process : Process World
process = record { vm = start; ipc = alone }

vmm_sigsegv-Written_example :
    (t : Process World) × (vmm_sigsegv ideal 4 2 1 no_peers 2 unchecked true false false true 4097
        process
      ≡ done tt t)
    × Written ideal 4 2 1 no_peers 2 unchecked 0 process t
vmm_sigsegv-Written_example =
    vmm_sigsegv-Written ideal 4 2 1 no_peers 2 unchecked ideal-IsPosix ideal-IsReliable true false
      false true 4097 0 process (omega arith) start-IsValid start-IsCoherent (omega arith) refl
      (omega arith) refl refl (omega arith)
