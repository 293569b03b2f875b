-- ===== src/Examples/Mapping.antt =====
-- The theorem on the mapping of the controller memory buffer, applied.
use ccnvme.Prelude.{ℕ, ◌+◌, ◌*◌, ◌/◌, ◌%◌, ◌^◌, ◌<◌, arith, false, none, some, ◌==◌, if◌then◌else◌}
use ccnvme.Cmb.Map.{Pci, InBar, init_cmb, init_cmb-InBar}

-- an emulated device whose controller states more than the bar has left behind the offset
abbrev emulated : Pci
emulated = record {
  pci_get_device = λ vendor device. if vendor == 0x8086 then some 1 else none;
  cmbsz = λ d. 16 * 2 ^ 12 + 1;
  cmbloc = λ d. 2 * 2 ^ 12 + 4;
  cmb_in_use = λ d. false;
  szu = λ r. r / 2 ^ 8 % 2 ^ 4;
  sz = λ r. r / 2 ^ 12 % 2 ^ 20;
  bir = λ r. r % 8;
  ofst = λ r. r / 2 ^ 12 % 2 ^ 20;
  sz-lt = λ r. omega arith;
  ofst-lt = λ r. omega arith;
  resource_len = λ d bar. 2 ^ 14;
  resource_start = λ d bar. 2 ^ 32;
  ioremap_wc = λ addr size. some (addr + 2 ^ 40);
}

emulated-small : (d bar : ℕ) → emulated.resource_start d bar + emulated.resource_len d bar < 2 ^ 64
emulated-small d bar = omega arith

init_cmb-InBar_example : InBar emulated (init_cmb emulated)
init_cmb-InBar_example = init_cmb-InBar emulated emulated-small
