-- ===== src/Submit/Chain.antt =====
-- Several writes of a transaction in a row (ccnvme/horae.c, stream_submit_bio_ipu): a stream that is
-- ready for one journaled write is ready for the next.
use ccnvme.Prelude.{
  ℕ, ◌+◌, ◌*◌, ◌^◌, ◌≤◌, ◌<◌, ◌≡◌, arith, Bool, true, ◌||◌, some, List, [], ◌∷◌, ◌++◌, refl, ap,
  sym, ◌∙◌, subst, length,
}
use ccnvme.Kernel.{Kernel, Bio, submit_bio}
use ccnvme.State.{Olayer, emit, stream_at}
use ccnvme.Commit.Laws.{IsRing, frame}
use ccnvme.Journal.Region.{IsJournal}
use ccnvme.Journal.{horae_get_lba, horae_get_secs}
use ccnvme.Journal.Bounds.{IsSound, Reserved, Apart, Apart-trans, stream_at-frame}
use ccnvme.Checkpoint.Space.{Keeping}
use ccnvme.Submit.{horae_path, stream_submit_bio_ipu}
use ccnvme.Submit.Queue.{IsQuiet}
use ccnvme.Submit.Append.{Appended}
use ccnvme.Submit.Sent.{kind_of, unordered, entry_of, submit_ipu-journaled}

module _ (K : Kernel) where
  -- A registered stream, sound and quiet, with two entries at least and a region of some blocks.
  pub record Ready (sid blocks : ℕ) (l : Olayer K) : Type 0 where
    pub known : sid < l.nr_streams
    pub sound : IsSound K l sid
    pub quiet : IsQuiet (stream_at K l sid)
    pub two : 2 ≤ (stream_at K l sid).nr_ometa
    pub region : blocks ≤ (stream_at K l sid).nr_journal_block

  -- A write of so many blocks, with block numbers of 32 bits, that takes the path of the queue.
  pub record Fits (blocks : ℕ) (bio : Bio) : Type 0 where
    pub path : horae_path bio.opf ≡ true
    pub few : horae_get_secs bio ≤ blocks
    pub small : horae_get_lba bio + horae_get_secs bio ≤ 2 ^ 32

  -- A journaled write: blocks are reserved, the entry is queued, and the bio is sent to the blocks.
  pub record Journaled (sid : ℕ) (bio : Bio) (l l' : Olayer K) : Type 0 where
    pub ptr : ℕ
    pub behind_blocks : Olayer K
    pub behind_checkpoint : Olayer K
    pub behind_entry : Olayer K
    pub reserved : Reserved K sid (horae_get_secs bio) ptr l behind_blocks
    pub keeping : Keeping K sid behind_blocks behind_checkpoint
    pub appended :
        Appended K sid
          (kind_of bio.opf)
          (entry_of K (stream_at K behind_checkpoint sid) bio ptr)
          behind_checkpoint
          behind_entry
    pub sent :
        l'
        ≡ emit K
            (submit_bio (record bio {
              dev = behind_blocks.cp_dev;
              sector = ptr * 8;
              opf = unordered bio.opf;
            }))
            behind_entry

  -- The journaled writes of a list of bios, in order; between them only events happen.
  pub data Writes (sid : ℕ) : List Bio → Olayer K → Olayer K → Type 0 where
    done : {l l' : Olayer K} → frame K l' ≡ frame K l → Writes sid [] l l'
    write :
        {bio : Bio} {bios : List Bio} {l l1 l2 l' : Olayer K}
        → frame K l1 ≡ frame K l
        → Journaled sid bio l1 l2
        → Writes sid bios l2 l'
        → Writes sid (bio ∷ bios) l l'

  pub Ready-frame :
      (sid blocks : ℕ) (l l' : Olayer K)
      → frame K l' ≡ frame K l
      → Ready sid blocks l
      → Ready sid blocks l'
  Ready-frame sid blocks l l' e r = record {
    known = omega (arith, r.known, ap (λ f. f.nr_streams) e);
    sound = record {
      known = omega (arith, r.sound.known, ap (λ f. length f.streams) e);
      ring = subst IsRing (sym here) r.sound.ring;
      journal = subst IsJournal (sym here) r.sound.journal;
    };
    quiet = subst IsQuiet (sym here) r.quiet;
    two = subst (λ s. 2 ≤ s.nr_ometa) (sym here) r.two;
    region = subst (λ s. blocks ≤ s.nr_journal_block) (sym here) r.region;
  }
    where
      here : stream_at K l' sid ≡ stream_at K l sid
      here = stream_at-frame K l l' sid e

  -- blocks of the journal taken leave the stream ready
  pub Ready-Reserved :
      (sid blocks n ptr : ℕ) (l l' : Olayer K)
      → Ready sid blocks l
      → Reserved K sid n ptr l l'
      → Ready sid blocks l'
  Ready-Reserved sid blocks n ptr l l' r j = record {
    known = omega (arith, r.known, j.apart.counted);
    sound = j.sound;
    quiet = record {
      array = ap length j.untouched.entries ∙ r.quiet.array ∙ sym j.untouched.size;
      published = j.untouched.watermark ∙ r.quiet.published ∙ sym j.untouched.tail;
    };
    two = omega (arith, r.two, j.apart.rings sid);
    region = omega (arith, r.region, j.apart.regions sid);
  }

  -- a journaled write leaves the stream ready
  Ready-Journaled :
      (sid blocks : ℕ) (bio : Bio) (l l' : Olayer K)
      → Ready sid blocks l
      → Journaled sid bio l l'
      → Ready sid blocks l'
  unfolding emit
  Ready-Journaled sid blocks bio l l' r j = subst (Ready sid blocks) (sym j.sent) (
      Ready-frame sid blocks j.behind_entry _ refl (record {
        known = omega (arith, r.known, apart.counted);
        sound = j.appended.sound;
        quiet = j.appended.quiet;
        two = omega (arith, r.two, apart.rings sid);
        region = omega (arith, r.region, apart.regions sid);
      }))
    where
      apart : Apart K sid l j.behind_entry
      apart = Apart-trans K sid l j.behind_blocks j.behind_entry j.reserved.apart (
          Apart-trans K sid j.behind_blocks j.behind_checkpoint j.behind_entry j.keeping.apart
            j.appended.apart)

  -- A ready stream takes a write that fits: the write is journaled.
  pub ipu_goes_through :
      (sid blocks : ℕ) (bio : Bio) (forced : Bool) (l : Olayer K)
      → (l.version_consistency || forced) ≡ true
      → Ready sid blocks l
      → Fits blocks bio
      → (l' : Olayer K) × (stream_submit_bio_ipu K bio sid forced l ≡ some l')
        × Journaled sid bio l l'
        × Ready sid blocks l'
  ipu_goes_through sid blocks bio forced l forced' r f =
      let j =
        submit_ipu-journaled K bio sid forced l f.path forced' r.known r.sound r.quiet r.two
          (omega (arith, f.few, r.region)) f.small in
      let l' =
        emit K
          (submit_bio
            (record bio { dev = (j.1).cp_dev; sector = j.0 * 8; opf = unordered bio.opf }))
          j.3 in
      let done : Journaled sid bio l l' = record {
        ptr = j.0;
        behind_blocks = j.1;
        behind_checkpoint = j.2;
        behind_entry = j.3;
        reserved = j.4;
        keeping = j.5;
        appended = j.6;
        sent = refl;
      } in
      (l', j.7, done, Ready-Journaled sid blocks bio l l' r done)

  pub Writes-frame :
      (sid : ℕ) (bios : List Bio) (l0 l l' : Olayer K)
      → frame K l ≡ frame K l0
      → Writes sid bios l l'
      → Writes sid bios l0 l'
  Writes-frame sid bios l0 l l' e (done q) = done (q ∙ e)
  Writes-frame sid bios l0 l l' e (write q j r) = write (q ∙ e) j r

  pub Writes-append :
      (sid : ℕ) (xs ys : List Bio) (l m l' : Olayer K)
      → Writes sid xs l m
      → Writes sid ys m l'
      → Writes sid (xs ++ ys) l l'
  Writes-append sid xs ys l m l' (done q) s = Writes-frame sid ys l m l' q s
  Writes-append sid xs ys l m l' (write q j r) s = write q j (Writes-append sid _ ys _ m l' r s)

  pub Ready-Writes :
      (sid blocks : ℕ) (bios : List Bio) (l l' : Olayer K)
      → Ready sid blocks l
      → Writes sid bios l l'
      → Ready sid blocks l'
  Ready-Writes sid blocks bios l l' r (done q) = Ready-frame sid blocks l l' q r
  Ready-Writes sid blocks bios l l' r (write q j s) =
      Ready-Writes sid blocks _ _ l'
        (Ready-Journaled sid blocks _ _ _ (Ready-frame sid blocks l _ q r) j) s
