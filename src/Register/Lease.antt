-- ===== src/Register/Lease.antt =====
-- Which streams are handed out and given back, ccnvme/horae.c and ccnvme/recovery.c.
use ccnvme.Prelude.{
  append-nil, append_assoc, length-append, ◌*◌, sym, ℕ, zero, suc, ◌+◌, ◌≤◌, ◌≡◌, arith, min, List,
  [], ◌∷◌, ◌++◌, length, take, drop, refl, ap, ap₂, ◌∙◌, ltb, take-append-drop, take-whole,
  length-take_le, if◌then◌else◌,
}
use ccnvme.Kernel.{Kernel}
use ccnvme.State.{Stream, Olayer, put_stream}
use ccnvme.Kfifo.{Kfifo}
use ccnvme.Register.{
  setup_streams, init_streams, used_streams, InitParam, Pool, olayer_reset_stream,
  olayer_register_streams, olayer_unregister_streams, drain, olayer_unregister_all_streams,
}

wanted_le : (a b : ℕ) → (if ltb a b then a else b) ≤ min b a
wanted_le a b = ground arith

-- A list in front of another is empty if the whole is.
empty_front : (l r whole : List ℕ) → l ++ r ≡ whole → whole ≡ [] → l ≡ []
empty_front [] r whole e q = refl
empty_front (x ∷ l) r whole e q = absurd (omega (arith, ap (λ t. length t) (e ∙ q)))

-- `n` numbers from `i` on
abbrev pub numbers : ℕ → ℕ → List ℕ
numbers i zero = []
numbers i (suc n) = i ∷ numbers (i + 1) n

module _ (K : Kernel) (Q : Kfifo) where
  -- the numbers of the streams that are free
  abbrev pub free : Pool K Q → List ℕ
  free p = Q.contents p.free_stream_q

  abbrev pub room : Pool K Q → ℕ
  room p = Q.capacity p.free_stream_q

  -- The streams that a call of olayer_register_streams returns and those that are free after it
  -- are, in order, those that were free before: no stream is given to two callers, and none is
  -- lost. It returns no more than were asked for and than the module has.
  pub register_streams-free :
      (nr : ℕ) (param : InitParam) (p : Pool K Q)
      → ((olayer_register_streams K Q nr param p).0
            ++ free (olayer_register_streams K Q nr param p).1
          ≡ free p)
        × (length (olayer_register_streams K Q nr param p).0 ≤ min nr p.layer.nr_streams)
  unfolding olayer_register_streams
  register_streams-free nr param p =
      let n = if ltb p.layer.nr_streams nr then p.layer.nr_streams else nr in
      (
        ap₂ (λ a b. a ++ b) (Q.out-taken p.free_stream_q n) (Q.out-contents p.free_stream_q n)
            ∙ take-append-drop n (free p),
        omega (
          arith,
          wanted_le p.layer.nr_streams nr,
          length-take_le n (free p),
          ap (λ l. length l) (Q.out-taken p.free_stream_q n),
        ),
      )

  -- Streams that are given back to a queue with room for them are free behind those that were.
  pub unregister_streams-free :
      (strs devs : List ℕ) (p : Pool K Q)
      → length (free p) + length strs ≤ room p
      → free (olayer_unregister_streams K Q strs devs p) ≡ free p ++ strs
  unfolding olayer_unregister_streams
  unregister_streams-free strs devs p h =
      Q.in-contents p.free_stream_q strs
      ∙ ap (λ l. free p ++ l)
          (take-whole (Q.fifo_in p.free_stream_q strs).0 strs
            (omega (arith, Q.in-number p.free_stream_q strs)))

  drain_lem :
      (fuel : ℕ) (p : Pool K Q) (l : List ℕ)
      → free p ≡ l
      → length l ≤ fuel
      → (free (drain K Q fuel p) ≡ [])
        × ((drain K Q fuel p).layer.registered_list ≡ p.layer.registered_list)
  unfolding drain olayer_reset_stream put_stream
  drain_lem zero p [] e h = (e, refl)
  drain_lem zero p (x ∷ l) e h = absurd (omega arith)
  drain_lem (suc fuel) p [] e h =
      rw (Q.out-taken p.free_stream_q 1 ∙ ap (λ l. take 1 l) e, drain) (e, refl)
  drain_lem (suc fuel) p (x ∷ l) e h =
      rw (Q.out-taken p.free_stream_q 1 ∙ ap (λ l. take 1 l) e, drain)
        (drain_lem fuel
          (record {
            layer = olayer_reset_stream K x p.layer;
            free_stream_q = (Q.fifo_out p.free_stream_q 1).1;
          })
          l (Q.out-contents p.free_stream_q 1 ∙ ap (λ l. drop 1 l) e) (omega arith))

  -- the streams that some registrations in a row return, with nothing given back between them
  abbrev pub handed_out : List (ℕ × InitParam) → Pool K Q → List ℕ
  handed_out [] p = []
  handed_out ((nr, param) ∷ calls) p =
      let r = olayer_register_streams K Q nr param p in r.0 ++ handed_out calls r.1

  none_left : (calls : List (ℕ × InitParam)) (p : Pool K Q) → free p ≡ [] → handed_out calls p ≡ []
  none_left [] p e = refl
  none_left ((nr, param) ∷ calls) p e =
      let (strs, p1) = olayer_register_streams K Q nr param p in
      let split = (register_streams-free nr param p).0 in
      let got : strs ≡ [] = empty_front strs (free p1) (free p) split e in
      let left : free p1 ≡ [] = ap (λ l. l ++ free p1) (sym got) ∙ split ∙ e in
      ap₂ (λ a b. a ++ b) got (none_left calls p1 left)

  -- olayer_unregister_all_streams, of a queue of free streams within its capacity, comes to its end
  -- with no device registered, and with no stream free: the streams that were free are taken out of
  -- the queue and not put back, so that however many registrations follow, with nothing given back
  -- meanwhile, none returns a stream.
  pub unregister_all-none_left :
      (p : Pool K Q)
      → length (free p) ≤ room p
      → (free (olayer_unregister_all_streams K Q p) ≡ [])
        × ((olayer_unregister_all_streams K Q p).layer.registered_list ≡ [])
        × ((calls : List (ℕ × InitParam))
            → handed_out calls (olayer_unregister_all_streams K Q p) ≡ [])
  unfolding olayer_unregister_all_streams
  unregister_all-none_left p h =
      let r =
        drain_lem (room p) (record p { layer = record p.layer { registered_list = [] } }) (free p)
          refl h in
      (r.0, r.1, λ calls. none_left calls (olayer_unregister_all_streams K Q p) r.0)

  module _ (memory : ℕ → Stream) where
    free_each :
        (w : Olayer K) (n i : ℕ) (q : Q.Fifo)
        → length (Q.contents q) + n ≤ Q.capacity q
        → Q.contents (setup_streams K Q memory w n i q).1 ≡ Q.contents q ++ numbers i n
    unfolding setup_streams
    free_each w zero i q h = sym (append-nil (Q.contents q))
    free_each w (suc n) i q h =
        free_each w n (i + 1) q1 (
          omega (
            arith,
            ap (λ l. length l) put,
            length-append (Q.contents q) (i ∷ []),
            Q.in-capacity q (i ∷ []),
          ))
        ∙ ap (λ l. l ++ numbers (i + 1) n) put
        ∙ append_assoc (Q.contents q) (i ∷ []) (numbers (i + 1) n)
      where
        q1 : Q.Fifo
        q1 = (Q.fifo_in q (i ∷ [])).1

        put : Q.contents q1 ≡ Q.contents q ++ (i ∷ [])
        put =
            Q.in-contents q (i ∷ [])
            ∙ ap (λ l. Q.contents q ++ l)
                (take-whole (Q.fifo_in q (i ∷ [])).0 (i ∷ [])
                  (omega (arith, Q.in-number q (i ∷ []))))

    -- After init_streams the queue of free streams has the number of every stream, in order: the
    -- queue has been made large enough for all of them.
    pub init_streams-free :
        (cpus : ℕ) (w : Olayer K)
        → free (init_streams K Q memory cpus w) ≡ numbers 0 (used_streams w.nr_streams cpus)
    unfolding init_streams
    init_streams-free cpus w =
        free_each _ n 0 q (
          omega
            (arith, ap (λ l. length l) (Q.alloc-empty size), Q.alloc-capacity size, Q.roundup-le n))
        ∙ ap (λ l. l ++ numbers 0 n) (Q.alloc-empty size)
      where
        n : ℕ
        n = used_streams w.nr_streams cpus

        size : ℕ
        size = Q.roundup_pow_of_two n * 4

        q : Q.Fifo
        q = Q.fifo_alloc size
