-- ===== src/Examples/Queue.antt =====
-- The theorems on the submission queue and the flush, applied.
use ccnvme.Prelude.{◌≡◌, arith, true, false, some, [], ◌∷◌, ◌++◌, refl}
use ccnvme.Kernel.{issue_flush_async, wait_for_completion, store_flushed}
use ccnvme.Ometa.{Ometa, has_bit, horae_tx_begin, horae_tx, horae_tx_end}
use ccnvme.State.{Olayer, stream_at, stream_ometa_at, put_stream, emit}
use ccnvme.Ring.{ring_space}
use ccnvme.Cmb.{cmb_flush}
use ccnvme.Journal.Bounds.{Apart}
use ccnvme.Checkpoint.Space.{Keeping}
use ccnvme.Submit.{stream_submit_bio_core, stream_commit_tx}
use ccnvme.Submit.Queue.{queue}
use ccnvme.Submit.Append.{new_entry, Appended, submit-Appended, submit_total}
use ccnvme.Submit.Marks.{commit_tx-mark_lost}
use ccnvme.Flush.{stream_blkdev_issue_flush}
use ccnvme.Flush.Laws.{behind, sends, waits, issue_flush-moves_flushed}
use ccnvme.Examples.{
  host, busy, open_tx, layer_of, busy-IsSound, busy-IsQuiet, open_tx-IsSound, open_tx-IsQuiet,
}

-- a queue with one slot left, and a full one
abbrev w : Olayer host
w = layer_of open_tx

abbrev full : Olayer host
full = layer_of busy

submit-Appended_example :
    (w' : Olayer host) × (stream_submit_bio_core host 1 0 50 1 3 6 1 w ≡ some (2, w'))
    × Appended host 0 1 (new_entry host (stream_at host w 0) 50 1 3 6 1) w w'
unfolding stream_at ring_space
submit-Appended_example =
    submit-Appended host 0 50 1 3 6 1 w 0 open_tx-IsSound open_tx-IsQuiet (omega arith)

submit_total_example :
    (w1 : Olayer host) × (w' : Olayer host) × Keeping host 0 full w1
    × (stream_submit_bio_core host 2 0 50 1 3 6 1 full ≡ some (3, w'))
    × Appended host 0 1 (new_entry host (stream_at host w1 0) 50 1 3 6 1) w1 w'
unfolding stream_at
submit_total_example = submit_total host 0 50 1 3 6 1 full busy-IsSound busy-IsQuiet (omega arith)

commit_tx-mark_lost_example :
    (w' : Olayer host) × (o : Ometa) × (stream_submit_bio_core host 1 0 50 1 3 6 horae_tx
        (stream_commit_tx host 0 w)
      ≡ some (2, w'))
    × (has_bit (stream_ometa_at (stream_at host (stream_commit_tx host 0 w) 0) 2).tag horae_tx_end
        ≡ true)
    × (stream_ometa_at (stream_at host w' 0) 2 ≡ o)
    × (queue (stream_at host w' 0) ≡ queue open_tx ++ (o ∷ []))
    × (has_bit o.tag horae_tx_begin ≡ true)
    × (has_bit o.tag horae_tx_end ≡ false)
unfolding stream_at ring_space
commit_tx-mark_lost_example =
    commit_tx-mark_lost host 0 50 1 3 6 w open_tx-IsSound open_tx-IsQuiet (omega arith)

issue_flush-moves_flushed_example :
    (w' : Olayer host) × (stream_blkdev_issue_flush host (9 ∷ 4 ∷ []) 0 w ≡ some w')
    × (w'
        ≡ cmb_flush host
            (record open_tx { flushed = 2 })
            0
            8
            (emit host (store_flushed 0 2) (
              put_stream host
                (behind host
                  (issue_flush_async 9
                    ∷ issue_flush_async 4
                    ∷ wait_for_completion 9
                    ∷ wait_for_completion 4
                    ∷ [])
                  w)
                0
                (record open_tx { flushed = 2 }))))
    × (stream_at host w' 0 ≡ record open_tx { flushed = 2 })
    × Apart host 0 w w'
unfolding stream_at sends waits
issue_flush-moves_flushed_example =
    issue_flush-moves_flushed host 9 (4 ∷ []) 0 w open_tx-IsSound (omega arith) (omega arith)
      ((λ p. refl), ((λ p. refl), tt))
