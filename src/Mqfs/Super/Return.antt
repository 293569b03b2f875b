-- ===== src/Mqfs/Super/Return.antt =====
-- What a mount takes and an unmount gives back (mqfs/super.c, ccnvme/horae.c).
use ccnvme.Prelude.{
  ℕ, ◌+◌, ◌≤◌, ◌≡◌, arith, ap, sym, ◌∙◌, Option, none, some, List, [], ◌∷◌, ◌++◌, length,
  length-append, not, ◌&&◌, ◌==◌, ◌>>=◌, if◌then◌else◌,
}
use ccnvme.Ometa.{Ometa}
use ccnvme.Kernel.{Kernel}
use ccnvme.State.{Olayer}
use ccnvme.Kfifo.{Kfifo}
use ccnvme.Scan.{Phase}
use ccnvme.Recovery.{graceful_shutdown, olayer_crash_recovery}
use ccnvme.Register.{InitParam, Pool, olayer_register_streams, olayer_unregister_streams}
use ccnvme.Register.Lease.{free, room, register_streams-free, unregister_streams-free}
use ccnvme.Mqfs.{Sbi}
use ccnvme.Mqfs.Super.{
  SuperBlock, param_of, wanted_streams, mounted, mount_streams, unmount_streams,
}

module _ (K : Kernel) (Q : Kfifo) where
  -- what is done behind the recovery and behind the shutdown
  abbrev mounted_on : List ℕ → Pool K Q → Option (Olayer K) → Option (Sbi × Pool K Q)
  mounted_on strs p o = o >>= λ l. some (mounted strs, record p { layer = l })

  abbrev given_back :
      SuperBlock → Sbi → Pool K Q → Option (Phase × Option (Olayer K)) → Option (Sbi × Pool K Q)
  given_back s sbi p o = o >>= λ r. r.1 >>= λ l. some (
    record sbi { nr_streams = 0 },
    olayer_unregister_streams K Q sbi.streams (s.dev ∷ []) (record p { layer = l }),
  )

  abbrev seen_of : Sbi → Pool K Q → List ℕ × List ℕ × ℕ
  seen_of sbi p = (sbi.streams, free K Q p, room K Q p)

  abbrev queue_of : Option (Sbi × Pool K Q) → List ℕ → List ℕ × List ℕ × ℕ
  queue_of none old = (old, [], 0)
  queue_of (some (sbi, p)) old = seen_of sbi p

  mounted_lem :
      (strs : List ℕ) (p : Pool K Q) (o : Option (Olayer K)) (sbi : Sbi) (p1 : Pool K Q)
      → mounted_on strs p o ≡ some (sbi, p1)
      → seen_of sbi p1 ≡ (strs, free K Q p, room K Q p)
  mounted_lem strs p none sbi p1 e = absurd (cc e)
  mounted_lem strs p (some l) sbi p1 e = ap (λ x. queue_of x []) (sym e)

  given_back_lem :
      (s : SuperBlock) (sbi : Sbi) (p : Pool K Q) (o : Option (Phase × Option (Olayer K)))
      (sbi' : Sbi) (p' : Pool K Q)
      → length (free K Q p) + length sbi.streams ≤ room K Q p
      → given_back s sbi p o ≡ some (sbi', p')
      → free K Q p' ≡ free K Q p ++ sbi.streams
  given_back_lem s sbi p none sbi' p' h e = absurd (cc e)
  given_back_lem s sbi p (some (phase, none)) sbi' p' h e = absurd (cc e)
  given_back_lem s sbi p (some (phase, some l)) sbi' p' h e =
      ap (λ x. (queue_of x []).1) (sym e)
      ∙ unregister_streams-free K Q sbi.streams (s.dev ∷ []) (record p { layer = l }) h

  registered-room :
      (nr : ℕ) (param : InitParam) (p : Pool K Q)
      → room K Q (olayer_register_streams K Q nr param p).1 ≡ room K Q p
  unfolding olayer_register_streams
  registered-room nr param p = Q.out-capacity p.free_stream_q _

  -- A mount that came back and then an unmount that came back, on a queue of free streams within its
  -- capacity: the mount has taken its streams from the front of the queue, and the unmount has put
  -- the same behind the streams that were free meanwhile.
  pub unmount-rotates :
      (buffer : ℕ → ℕ → Ometa) (cpus : ℕ) (s : SuperBlock) (p p1 p2 : Pool K Q) (sbi sbi' : Sbi)
      → length (free K Q p) ≤ room K Q p
      → mount_streams K Q buffer cpus s p ≡ some (sbi, p1)
      → unmount_streams K Q s sbi p1 ≡ some (sbi', p2)
      → (free K Q p ≡ sbi.streams ++ free K Q p1) × (free K Q p2 ≡ free K Q p1 ++ sbi.streams)
  unfolding mount_streams unmount_streams
  unmount-rotates buffer cpus s p p1 p2 sbi sbi' h a b = (
    taken,
    given_back_lem s sbi p1 (graceful_shutdown K sbi.streams s.sb p1.layer) sbi' p2
        (omega
          (arith, h, same_room, ap (λ l. length l) taken, length-append sbi.streams (free K Q p1)))
        b,
  )
    where
      nr : ℕ
      nr = wanted_streams s cpus

      reg : List ℕ × Pool K Q
      reg = olayer_register_streams K Q nr (param_of s) p

      seen : seen_of sbi p1 ≡ (reg.0, free K Q reg.1, room K Q reg.1)
      seen =
          mounted_lem reg.0 reg.1
            (if s.crashmonkey && not (nr == length reg.0)
              then (olayer_crash_recovery K buffer s.dev reg.1.layer >>= λ r. some (r.1))
              else some reg.1.layer)
            sbi p1 a

      taken : free K Q p ≡ sbi.streams ++ free K Q p1
      taken = sym (register_streams-free K Q nr (param_of s) p).0 ∙ sym (ap (λ x. x.0 ++ x.1) seen)

      same_room : room K Q p1 ≡ room K Q p
      same_room = ap (λ x. x.2) seen ∙ registered-room nr (param_of s) p
