-- ===== src/Examples/Sent.antt =====
-- The theorems on the entry points, applied to a full queue.
use ccnvme.Prelude.{◌≡◌, arith, some, refl}
use ccnvme.Kernel.{submit_bio}
use ccnvme.State.{Olayer, emit, stream_at}
use ccnvme.Checkpoint.Space.{Keeping}
use ccnvme.Submit.{horae_path, op_is_ordered_write, op_is_barrier_write, stream_submit_bio}
use ccnvme.Submit.Append.{Appended}
use ccnvme.Submit.Sent.{kind_of, plain, entry_of, submit_bio-queued}
use ccnvme.Examples.{host, busy, layer_of, two_blocks, write_opf, busy-IsSound, busy-IsQuiet}

abbrev w : Olayer host
w = layer_of busy

submit_bio-queued_example :
    (w1 : Olayer host) × (w2 : Olayer host) × Keeping host 0 w w1
    × Appended host 0 (kind_of write_opf) (entry_of host (stream_at host w1 0) two_blocks 0) w1 w2
    × (stream_submit_bio host two_blocks 0 w
        ≡ some (emit host (submit_bio (record two_blocks { opf = plain write_opf })) w2))
unfolding stream_at horae_path op_is_ordered_write op_is_barrier_write
submit_bio-queued_example =
    submit_bio-queued host two_blocks 0 w refl (omega arith) busy-IsSound busy-IsQuiet (omega arith)
