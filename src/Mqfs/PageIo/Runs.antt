-- ===== src/Mqfs/PageIo/Runs.antt =====
-- The bios of a file's data cover its blocks, in order (mqfs/page-io.c, io_submit_add_bh).
use ccnvme.Prelude.{
  ℕ, zero, suc, ◌+◌, ◌*◌, ◌/◌, ◌^◌, ◌≡◌, refl, ap, ap₂, sym, ◌∙◌, arith, Bool, true, false, ◌||◌,
  Option, none, some, List, [], ◌∷◌, ◌++◌, append_assoc, append-nil, map, All, Bool-cases, inl, inr,
  if◌then◌else◌, ◌>>=◌,
}
use ccnvme.Kernel.{Bio, BufferHead}
use ccnvme.Mqfs.PageIo.{
  IoSubmit, Route, plain, in_stream, BlockLayer, routed, ext4_io_submit, io_submit_init_bio, put_bh,
  breaks, behind, io_submit_add_bh, no_flags,
}

-- so many numbers from one on
abbrev pub count_up : ℕ → ℕ → List ℕ
count_up s zero = []
count_up s (suc n) = s ∷ count_up (suc s) n

count_up-snoc : (n s : ℕ) → count_up s (suc n) ≡ count_up s n ++ ((s + n) ∷ [])
count_up-snoc zero s = ap (λ k. k ∷ []) (omega arith)
count_up-snoc (suc n) s =
    ap (λ l. s ∷ l)
      (count_up-snoc n (suc s) ∙ ap (λ k. count_up (suc s) n ++ (k ∷ [])) (omega arith))

-- the blocks of a bio, of what is submitted, and of the bio that is being filled
abbrev pub blocks : Bio → List ℕ
blocks bio = count_up (bio.sector / 8) (bio.size / 4096)

abbrev pub bio_of_route : Route → Bio
bio_of_route (plain bio) = bio
bio_of_route (in_stream stream bio) = bio

abbrev pub sent_blocks : List Route → List ℕ
sent_blocks [] = []
sent_blocks (r ∷ rs) = blocks (bio_of_route r) ++ sent_blocks rs

abbrev pub open_blocks : Option Bio → List ℕ
open_blocks none = []
open_blocks (some bio) = blocks bio

-- A bio that is being filled holds the blocks before the next one.
abbrev pub IsRun : ℕ → Option Bio → Type 0
IsRun next none = Unit {0}
IsRun next (some bio) =
    (s : ℕ) × (n : ℕ) × (bio.sector ≡ s * 8) × (bio.size ≡ n * 4096) × (next ≡ s + n)

sent-routed : (io : IoSubmit) (o : Option Bio) → sent_blocks (routed io o) ≡ open_blocks o
sent-routed io none = refl
sent-routed io (some bio) = elim (Bool-cases io.overwrite) [
  | inl e ↦ rw e (append-nil (blocks bio))
  | inr e ↦ rw e (append-nil (blocks bio))
]

sent-append : (a b : List Route) → sent_blocks (a ++ b) ≡ sent_blocks a ++ sent_blocks b
sent-append [] b = refl
sent-append (r ∷ a) b =
    ap (λ l. blocks (bio_of_route r) ++ l) (sent-append a b)
    ∙ sym (append_assoc (blocks (bio_of_route r)) (sent_blocks a) (sent_blocks b))

-- What adding a buffer does: the blocks sent and those of the bio that is left are those of the bio
-- before and the buffer's.
abbrev pub Added :
    BufferHead → Bool → IoSubmit → Option Bio → Option (ℕ × List Route × IoSubmit) → Type 0
Added bh overwrite io o res =
    (out : List Route) × (io' : IoSubmit) × (res ≡ some (0, out, io'))
    × IsRun io'.io_next_block io'.io_bio
    × (sent_blocks out ++ open_blocks io'.io_bio ≡ open_blocks o ++ (bh.blocknr ∷ []))
    × (io'.overwrite ≡ (io.overwrite || overwrite))

module _ (B : BlockLayer) where
  -- the loop of a caller over the buffers of its pages, each with its mark as an overwrite
  abbrev pub add_all : List (BufferHead × Bool) → IoSubmit → Option (ℕ × List Route × IoSubmit)
  add_all [] io = some (0, [], io)
  add_all ((bh, overwrite) ∷ l) io =
      io_submit_add_bh B bh overwrite io >>= λ r. behind r.1 (add_all l r.2)

module _ (B : BlockLayer) (rich : (bh : BufferHead) → B.has_bio bh ≡ true)
    (room : (bio : Bio) (n : ℕ) → bio.size ≡ 0 → B.takes bio n ≡ true) where
  module _ (bh : BufferHead) (overwrite : Bool) (sized : bh.b_size ≡ 4096) where
    latched : (p q : Bool) → (if p then true else q) ≡ (q || p)
    latched true true = refl
    latched true false = refl
    latched false true = refl
    latched false false = refl

    -- into a new bio
    put_new :
        (fuel : ℕ) (io : IoSubmit)
        → Added bh overwrite io none
            (put_bh B (suc fuel) bh overwrite (record io { io_bio = none }))
    unfolding put_bh io_submit_init_bio
    put_new fuel io = rw (rich bh) (
        rw (room new bh.b_size refl) (
          [],
          record io {
            io_bio = some (record new { size = 0 + bh.b_size });
            io_next_block = bh.blocknr + 1;
            overwrite = if overwrite then true else io.overwrite;
          },
          refl,
          (bh.blocknr, 1, sector, omega (arith, sized), refl),
          ap₂ count_up at_block one_block,
          latched overwrite io.overwrite,
        ))
      where
        new : Bio
        new = record {
          dev = bh.bdev;
          sector = bh.blocknr * (bh.b_size / 2 ^ 9);
          size = 0;
          opf = no_flags;
        }

        sector : new.sector ≡ bh.blocknr * 8
        sector = ap (λ (z : ℕ). bh.blocknr * (z / 2 ^ 9)) sized

        at_block : new.sector / 8 ≡ bh.blocknr
        at_block = omega (arith, sector)

        one_block : (0 + bh.b_size) / 4096 ≡ 1
        one_block = omega (arith, sized)

    -- behind a bio that was submitted
    put_behind :
        (io : IoSubmit) (o : Option Bio) (res : Option (ℕ × List Route × IoSubmit))
        → Added bh overwrite io none res
        → Added bh overwrite io o (behind (routed io o) res)
    put_behind io o res (out, io', e, run, covered, latch) = (
      routed io o ++ out,
      io',
      rw e refl,
      run,
      ap (λ l. l ++ open_blocks io'.io_bio) (sent-append (routed io o) out)
          ∙ append_assoc (sent_blocks (routed io o)) (sent_blocks out) (open_blocks io'.io_bio)
          ∙ ap₂ ◌++◌ (sent-routed io o) covered,
      latch,
    )

    -- into the bio that is there, which may be full
    put_there :
        (io : IoSubmit) (o : Option Bio)
        → IsRun io.io_next_block o
        → breaks io bh o ≡ false
        → Added bh overwrite io o (put_bh B 2 bh overwrite (record io { io_bio = o }))
    unfolding put_bh ext4_io_submit
    put_there io none run fits = put_new 1 io
    put_there io (some bio) (s, n, at, size, next) fits =
        elim (Bool-cases (B.takes bio bh.b_size)) [
          | inl e ↦ rw e (
            [],
            record io {
              io_bio = some (record bio { size = bio.size + bh.b_size });
              io_next_block = io.io_next_block + 1;
              overwrite = if overwrite then true else io.overwrite;
            },
            refl,
            (s, suc n, at, omega (arith, size, sized), omega (arith, next)),
            ap₂ count_up start more
                ∙ count_up-snoc n s
                ∙ ap₂ (λ l k. l ++ (k ∷ [])) (sym (ap₂ count_up start few)) here,
            latched overwrite io.overwrite,
          )
          | inr e ↦ rw e (relatch (put_behind io1 (some bio) _ (put_new 0 io1)))
        ]
      where
        io1 : IoSubmit
        io1 = record io { io_bio = some bio; overwrite = if overwrite then true else io.overwrite }

        start : bio.sector / 8 ≡ s
        start = omega (arith, at)

        few : bio.size / 4096 ≡ n
        few = omega (arith, size)

        more : (bio.size + bh.b_size) / 4096 ≡ suc n
        more = omega (arith, size, sized)

        here : s + n ≡ bh.blocknr
        here = ground arith

        twice : (p q : Bool) → ((if p then true else q) || p) ≡ (q || p)
        twice true true = refl
        twice true false = refl
        twice false true = refl
        twice false false = refl

        relatch :
            {res : Option (ℕ × List Route × IoSubmit)}
            → Added bh overwrite io1 (some bio) res
            → Added bh overwrite io (some bio) res
        relatch (out, io', e, run, covered, latch) =
            (out, io', e, run, covered, latch ∙ twice overwrite io.overwrite)

    -- A buffer of one block is added, by a kernel that has bios and puts a page into an empty one:
    -- two rounds are enough, and the call has no error. The blocks of the bios that it submits and
    -- of the one that it leaves open are, in order, those that were open before and the buffer's.
    -- The open bio still ends before the next block, and the io counts as an overwrite from then on
    -- if it did before or the buffer is one.
    pub add_bh-Added :
        (io : IoSubmit)
        → IsRun io.io_next_block io.io_bio
        → Added bh overwrite io io.io_bio (io_submit_add_bh B bh overwrite io)
    unfolding io_submit_add_bh ext4_io_submit
    add_bh-Added io run = elim (Bool-cases (breaks io bh io.io_bio)) [
      | inl e ↦ rw e (put_behind io io.io_bio _ (put_new 1 io))
      | inr e ↦ rw e (put_there io io.io_bio run e)
    ]

  -- Buffers of one block added one after another to an io whose open bio, if any, ends before the
  -- next block, by a kernel that has bios and puts a page into an empty one, and then what is left
  -- submitted: no call has an error, and the bios that were submitted cover exactly the blocks that
  -- were open before and those of the buffers, in the order of the buffers.
  pub add_all-covers :
      (l : List (BufferHead × Bool)) (io : IoSubmit)
      → All (λ x. (x.0).b_size ≡ 4096) l
      → IsRun io.io_next_block io.io_bio
      → (out : List Route) × (io' : IoSubmit) × (add_all B l io ≡ some (0, out, io'))
        × (sent_blocks (out ++ (ext4_io_submit io').0)
            ≡ open_blocks io.io_bio ++ map (λ x. (x.0).blocknr) l)
  unfolding ext4_io_submit
  add_all-covers [] io sized run =
      ([], io, refl, sent-routed io io.io_bio ∙ sym (append-nil (open_blocks io.io_bio)))
  add_all-covers ((bh, overwrite) ∷ l) io sized run =
      let (out, io1, e, run1, covered, latch) = add_bh-Added bh overwrite sized.0 io run in
      let (rest, io', e', all) = add_all-covers l io1 sized.1 run1 in
      (
        out ++ rest,
        io',
        rw e (rw e' refl),
        ap sent_blocks (append_assoc out rest (ext4_io_submit io').0)
            ∙ sent-append out (rest ++ (ext4_io_submit io').0)
            ∙ ap (λ t. sent_blocks out ++ t) all
            ∙ sym (
                append_assoc (sent_blocks out) (open_blocks io1.io_bio)
                  (map (λ x. (x.0).blocknr) l))
            ∙ ap (λ t. t ++ map (λ x. (x.0).blocknr) l) covered
            ∙ append_assoc (open_blocks io.io_bio) (bh.blocknr ∷ []) (map (λ x. (x.0).blocknr) l),
      )
