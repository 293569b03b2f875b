-- ===== src/Mqfs/Sync/Progress.antt =====
-- What it means that fsync has sent a part of a transaction, and which writes it begins with
-- (mqfs/fsync.c and mqfs/filemap_compat.c).
use ccnvme.Prelude.{
  ℕ, ◌≡◌, refl, ap, append_assoc, sym, ◌∙◌, Bool, true, ◌&&◌, List, [], ◌++◌, some, if◌then◌else◌,
  ◌==◌,
}
use ccnvme.Kernel.{Kernel, Bio}
use ccnvme.State.{Olayer}
use ccnvme.Submit.Chain.{Ready, Writes, done, Writes-append}
use ccnvme.Mqfs.{Buffer, Inode, Mqfs, Vfs, first_error, set_inode}
use ccnvme.Mqfs.Buffers.Waits.{update_keeps}
use ccnvme.Mqfs.Buffers.Dirty.{dirty_bios}
use ccnvme.Mqfs.Inodes.Phase.{IsSane, Phase}
use ccnvme.Mqfs.Inodes.Mapping.{IsSane-set_inode}
use ccnvme.Mqfs.Sync.{mapping_needs_writeback}

module _ (K : Kernel) where
  -- What a part of the transaction has sent: journaled writes, on a stream that stays ready.
  pub record Progress (sid blocks : ℕ) (bios : List Bio) (w w' : Mqfs K) : Type 0 where
    pub writes : Writes K sid bios w.layer w'.layer
    pub sane : IsSane K blocks w'
    pub ready : Ready K sid blocks w'.layer
    pub sbi : w'.sbi ≡ w.sbi
    pub marked : (i : ℕ) → (w'.inodes i).newentry ≡ true → (w.inodes i).newentry ≡ true

  module _ (sid blocks : ℕ) where
    pub Progress-Phase :
        (w w' : Mqfs K) (p : Phase K sid blocks w w') → Progress sid blocks p.bios w w'
    Progress-Phase w w' p = record {
      writes = p.writes;
      sane = p.sane;
      ready = p.ready;
      sbi = p.sbi;
      marked = λ i. (p.kept i).1;
    }

    pub Progress-trans :
        (xs ys : List Bio) (u v w : Mqfs K)
        → Progress sid blocks xs u v
        → Progress sid blocks ys v w
        → Progress sid blocks (xs ++ ys) u w
    Progress-trans xs ys u v w p q = record {
      writes = Writes-append K sid xs ys u.layer v.layer w.layer p.writes q.writes;
      sane = q.sane;
      ready = q.ready;
      sbi = q.sbi ∙ p.sbi;
      marked = λ i e. p.marked i (q.marked i e);
    }

    -- the inode lock sends nothing
    pub Progress-lock :
        (ino : ℕ) (h : Bool) (w : Mqfs K)
        → Ready K sid blocks w.layer
        → IsSane K blocks w
        → Progress sid blocks [] w (set_inode K ino (record (w.inodes ino) { held = h }) w)
    unfolding set_inode
    Progress-lock ino h w r v = record {
      writes = done refl;
      sane = IsSane-set_inode K blocks ino _ w (v.distinct ino) v;
      ready = r;
      sbi = refl;
      marked = λ i e.
          sym (
            update_keeps (λ j. j.newentry) w.inodes ino (record (w.inodes ino) { held = h }) refl i)
          ∙ e;
    }

  module _ (V : Vfs K) (sid blocks : ℕ) where
    -- What filemap_fstreamwrite_tag_range does on a ready stream: it comes back, and what it has
    -- entered in the queue is journaled.
    abbrev pub DataIsJournaled : Type 0
    DataIsJournaled =
        (ino start end : ℕ) (l : Olayer K)
        → Ready K sid blocks l
        → (err : ℕ) × (bios : List Bio) × (l' : Olayer K) × (V.stream_write ino start end sid l
            ≡ some (err, l'))
          × Writes K sid bios l l'

    -- the writes of the metadata of a file: those of its dirty buffers
    abbrev pub metadata_bios : Bool → (ℕ → Buffer) → Inode → List Bio
    metadata_bios submits f i =
        if submits && i.has_buffer_mapping then dirty_bios K f i.private_list else []

    -- The writes of a transaction begin with the file: first those of its data, as the kernel
    -- enters them in the queue, if the file has data to write; then, if that has no error, those of
    -- the dirty buffers of its private list, in order. What follows is of its inode and of the new
    -- directories.
    pub record SendsFile (ino start end : ℕ) (w : Mqfs K) (bios : List Bio) : Type 0 where
      pub data_bios : List Bio
      pub more : List Bio
      pub err : ℕ
      pub behind_data : Olayer K
      pub streamed :
          (if mapping_needs_writeback K V ino
            then V.stream_write ino start end sid w.layer
            else some (0, w.layer))
          ≡ some (err, behind_data)
      pub journaled : Writes K sid data_bios w.layer behind_data
      pub bios_split :
          bios
          ≡ data_bios
            ++ (metadata_bios
                  (first_error err (V.wb_err behind_data.io ino) == 0)
                  w.buffers
                  (w.inodes ino)
                ++ more)

    -- with further writes behind them
    pub SendsFile-append :
        (ino start end : ℕ) (w : Mqfs K) (bios later : List Bio)
        → SendsFile ino start end w bios
        → SendsFile ino start end w (bios ++ later)
    SendsFile-append ino start end w bios later s =
        let meta =
          metadata_bios (first_error s.err (V.wb_err s.behind_data.io ino) == 0) w.buffers
            (w.inodes ino) in
        record {
          data_bios = s.data_bios;
          more = s.more ++ later;
          err = s.err;
          behind_data = s.behind_data;
          streamed = s.streamed;
          journaled = s.journaled;
          bios_split =
              ap (λ b. b ++ later) s.bios_split
              ∙ append_assoc s.data_bios (meta ++ s.more) later
              ∙ ap (λ b. s.data_bios ++ b) (append_assoc meta s.more later);
        }
