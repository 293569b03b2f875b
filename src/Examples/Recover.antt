-- ===== src/Examples/Recover.antt =====
-- The theorems on shutdown and recovery, applied.
use ccnvme.State.{Olayer}
use ccnvme.Examples.{host, busy, layer_of}

abbrev w : Olayer host
w = layer_of busy
