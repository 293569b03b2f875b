-- ===== src/Mqfs/Sync/File.antt =====
-- The journaled writes that fsync sends: the data of the file, its metadata, its inode and the new
-- directories above it (mqfs/fsync.c and mqfs/filemap_compat.c).
use ccnvme.Prelude.{
  ℕ, zero, suc, ◌≡◌, inl, inr, refl, ap, ap₂, ◌∷◌, subst, append-nil, All, sym, ◌∙◌, Bool, true,
  false, not, ◌&&◌, ◌||◌, List, [], ◌++◌, some, Bool-cases, if◌then◌else◌, ◌==◌,
}
use ccnvme.Kernel.{Kernel, Bio}
use ccnvme.Submit.Chain.{Ready, Fits, done, Ready-Writes}
use ccnvme.Mqfs.{Mqfs, Vfs, first_error, set_inode}
use ccnvme.Mqfs.Buffers.Waits.{update_self}
use ccnvme.Mqfs.Buffers.{mqfs_submit_mapping_buffers}
use ccnvme.Mqfs.Buffers.Dirty.{bio_of}
use ccnvme.Mqfs.Buffers.Sends.{submit_mapping-Submitted}
use ccnvme.Mqfs.Inodes.{tx_write_inode_metadata}
use ccnvme.Mqfs.Inodes.Phase.{IsSane, Phase}
use ccnvme.Mqfs.Inodes.Mapping.{submit_mapping-Phase}
use ccnvme.Mqfs.Inodes.Metadata.{write_metadata-Phase}
use ccnvme.Mqfs.Inodes.Parents.{Ends, parent_submit-Climbed}
use ccnvme.Mqfs.Sync.{
  mapping_needs_writeback, file_tag_streamwrite_range, inode_lock, submit_locked, submit_out,
  generic_file_atomic_write_submit, submit_file,
}
use ccnvme.Mqfs.Sync.Progress.{
  Progress, Progress-Phase, Progress-trans, Progress-lock, DataIsJournaled, metadata_bios,
  SendsFile, SendsFile-append,
}

module _ (K : Kernel) where
  module _ (V : Vfs K) (sid blocks : ℕ) where
    module _ (written : DataIsJournaled K V sid blocks) where
      Data : ℕ → ℕ → ℕ → Mqfs K → Type 0
      Data ino start end w =
          (err : ℕ) × (w' : Mqfs K) × (file_tag_streamwrite_range K V ino start end sid w
            ≡ some (err, w'))
          × (bios : List Bio) × Progress K sid blocks bios w w'
          × (w'.inodes ≡ w.inodes)
          × (w'.buffers ≡ w.buffers)
          × (e : ℕ) × ((if mapping_needs_writeback K V ino
                then V.stream_write ino start end sid w.layer
                else some (0, w.layer))
              ≡ some (e, w'.layer))
          × (err ≡ first_error e (V.wb_err (w'.layer).io ino))

      file_tag-Progress :
          (ino start end : ℕ) (w : Mqfs K)
          → Ready K sid blocks w.layer
          → IsSane K blocks w
          → Data ino start end w
      unfolding file_tag_streamwrite_range Data
      file_tag-Progress ino start end w r v = elim (Bool-cases (mapping_needs_writeback K V ino)) [
        | inl e ↦
            let x = written ino start end w.layer r in
            rw e (
              first_error x.0 (V.wb_err (x.2).io ino),
              record w { layer = x.2 },
              rw (x.3) refl,
              x.1,
              record {
                writes = x.4;
                sane = record { fits = v.fits; distinct = v.distinct };
                ready = Ready-Writes K sid blocks x.1 w.layer x.2 r x.4;
                sbi = refl;
                marked = λ i f. f;
              },
              refl,
              refl,
              x.0,
              x.3,
              refl,
            )
        | inr e ↦ rw e (
          first_error 0 (V.wb_err w.layer.io ino),
          w,
          refl,
          [],
          record { writes = done refl; sane = v; ready = r; sbi = refl; marked = λ i f. f },
          refl,
          refl,
          0,
          refl,
          refl,
        )
      ]

      with_room :
          (l : List ℕ) (w : Mqfs K)
          → IsSane K blocks w
          → All (λ b. Fits K blocks (bio_of K (w.buffers b))) l
      with_room [] w v = tt
      with_room (b ∷ l) w v = ((v.fits b).0, with_room l w v)

      -- the metadata of a file
      mapping-Progress :
          (ino : ℕ) (w : Mqfs K)
          → Ready K sid blocks w.layer
          → IsSane K blocks w
          → (w' : Mqfs K) × (mqfs_submit_mapping_buffers K V ino sid w ≡ some w')
            × Progress K sid blocks
                (metadata_bios K V sid blocks true w.buffers (w.inodes ino))
                w
                w'
      unfolding mqfs_submit_mapping_buffers
      mapping-Progress ino w r v = elim (Bool-cases (w.inodes ino).has_buffer_mapping) [
        | inr e ↦ rw e (
          w,
          refl,
          record { writes = done refl; sane = v; ready = r; sbi = refl; marked = λ i f. f },
        )
        | inl e ↦
            let x = submit_mapping-Phase K V sid blocks ino w r v in
            let y =
              submit_mapping-Submitted K V ino sid blocks w e (v.distinct ino) r
                (with_room (w.inodes ino).private_list w v) in
            let same : x.0 ≡ y.0 = cc (x.1, y.1) in
            let p = subst (Phase K sid blocks w) same x.2 in
            (
              y.0,
              y.1,
              rw e (record {
                writes = y.2.writes;
                sane = p.sane;
                ready = p.ready;
                sbi = p.sbi;
                marked = λ i. (p.kept i).1;
              }),
            )
      ]

      -- the inode, if it has to be written
      metadata-Progress :
          (clean : Bool) (ino : ℕ) (w : Mqfs K)
          → Ready K sid blocks w.layer
          → IsSane K blocks w
          → (err : ℕ) × (w' : Mqfs K) × ((if clean
                then some (0, w)
                else tx_write_inode_metadata K V ino sid w)
              ≡ some (err, w'))
            × (bios : List Bio) × Progress K sid blocks bios w w'
      metadata-Progress true ino w r v = (
        0,
        w,
        refl,
        [],
        record { writes = done refl; sane = v; ready = r; sbi = refl; marked = λ i f. f },
      )
      metadata-Progress false ino w r v =
          let x = write_metadata-Phase K V sid blocks ino w r v in
          (x.0, x.1, x.2, x.3.bios, Progress-Phase K sid blocks w x.1 x.3)

      locked-Progress :
          (ino : ℕ) (datasync : Bool) (w : Mqfs K)
          → Ready K sid blocks w.layer
          → IsSane K blocks w
          → (err : ℕ) × (w' : Mqfs K) × (submit_locked K V ino datasync sid w ≡ some (err, w'))
            × (more : List Bio) × Progress K sid blocks
                (metadata_bios K V sid blocks true w.buffers (w.inodes ino) ++ more)
                w
                w'
      unfolding submit_locked submit_out
      locked-Progress ino datasync w r v =
          let x = mapping-Progress ino w r v in
          let w1 = x.0 in
          let y =
            metadata-Progress
              (not (w1.inodes ino).dirty_all || (datasync && not (w1.inodes ino).dirty_datasync))
              ino w1 x.2.ready x.2.sane in
          (
            (submit_out K V ino y.0 y.1).0,
            y.1,
            rw (x.1) (rw (y.2) refl),
            y.3,
            Progress-trans K sid blocks (metadata_bios K V sid blocks true w.buffers (w.inodes ino))
                y.3 w w1 y.1 x.2 y.4,
          )

      file-Progress :
          (ino start end : ℕ) (datasync : Bool) (w : Mqfs K)
          → Ready K sid blocks w.layer
          → IsSane K blocks w
          → (w.inodes ino).held ≡ false
          → (err : ℕ) × (w' : Mqfs K) × (generic_file_atomic_write_submit K V ino start end datasync
                sid w
              ≡ some (err, w'))
            × (bios : List Bio) × Progress K sid blocks bios w w'
            × SendsFile K V sid blocks ino start end w bios
      unfolding generic_file_atomic_write_submit inode_lock Data set_inode
      file-Progress ino start end datasync w r v free =
          let x = file_tag-Progress ino start end w r v in
          let w1 = x.1 in
          let free1 : (w1.inodes ino).held ≡ false = ap (λ f. (f ino).held) x.5 ∙ free in
          elim (Bool-cases (x.0 == 0)) [
            | inr e ↦ (
              x.0,
              w1,
              rw (x.2) (rw e refl),
              x.3,
              x.4,
              record {
                data_bios = x.3;
                more = [];
                err = x.7;
                behind_data = w1.layer;
                streamed = x.8;
                journaled = x.4.writes;
                bios_split =
                    sym (append-nil x.3)
                    ∙ ap
                        (λ q.
                          x.3 ++ (metadata_bios K V sid blocks q w.buffers (w.inodes ino) ++ []))
                        (sym (ap (λ n. n == 0) (sym x.9) ∙ e));
              },
            )
            | inl e ↦
                let i = record (w1.inodes ino) { held = true } in
                let w2 = set_inode K ino i w1 in
                let p = Progress-lock K sid blocks ino true w1 x.4.ready x.4.sane in
                let y = locked-Progress ino datasync w2 p.ready p.sane in
                let l = metadata_bios K V sid blocks true w2.buffers (w2.inodes ino) ++ y.3 in
                (
                  y.0,
                  y.1,
                  rw (x.2) (rw (e, free1) y.2),
                  x.3 ++ l,
                  Progress-trans K sid blocks x.3 l w w1 y.1 x.4
                      (Progress-trans K sid blocks [] l w1 w2 y.1 p y.4),
                  record {
                    data_bios = x.3;
                    more = y.3;
                    err = x.7;
                    behind_data = w1.layer;
                    streamed = x.8;
                    journaled = x.4.writes;
                    bios_split =
                        ap (λ m. x.3 ++ (m ++ y.3))
                          (ap (metadata_bios K V sid blocks true w1.buffers)
                              (update_self w1.inodes ino i)
                            ∙ ap₂ (λ f g. metadata_bios K V sid blocks true g (f ino)) x.5 x.6
                            ∙ ap (λ q. metadata_bios K V sid blocks q w.buffers (w.inodes ino))
                                (sym (ap (λ n. n == 0) (sym x.9) ∙ e)));
                  },
                )
          ]

      Ends-fewer :
          (n ino : ℕ) (f g : ℕ → Bool)
          → ((i : ℕ) → g i ≡ true → f i ≡ true)
          → Ends K V n f ino
          → Ends K V n g ino
      Ends-fewer zero ino f g h e = e
      Ends-fewer (suc n) ino f g h (inl e) = elim (Bool-cases (g ino)) [
        | inl q ↦ absurd (cc (h ino q, e))
        | inr q ↦ inl q
      ]
      Ends-fewer (suc n) ino f g h (inr (inl e)) = inr (inl e)
      Ends-fewer (suc n) ino f g h (inr (inr (p, e, r))) = inr (inr (p, e, Ends-fewer n p f g h r))

      pub submit_file-Progress :
          (fuel ino start end : ℕ) (datasync : Bool) (w : Mqfs K)
          → Ready K sid blocks w.layer
          → IsSane K blocks w
          → (w.inodes ino).held ≡ false
          → Ends K V fuel (λ i. (w.inodes i).newentry) ino
          → (p : Bool) × (ws : List ℕ) × (w' : Mqfs K) × (submit_file K V fuel ino start end
                datasync sid w
              ≡ some (p, ws, w'))
            × (bios : List Bio) × Progress K sid blocks bios w w'
            × SendsFile K V sid blocks ino start end w bios
      unfolding submit_file
      submit_file-Progress fuel ino start end datasync w r v free ends =
          let x = file-Progress ino start end datasync w r v free in
          elim (Bool-cases (x.0 == 0)) [
            | inr e ↦ (false, [], x.1, rw (x.2) (rw e refl), x.3, x.4, x.5)
            | inl e ↦
                let y =
                  parent_submit-Climbed K V sid blocks fuel ino x.1
                    (Ends-fewer fuel ino _ _ x.4.marked ends) x.4.ready x.4.sane in
                (
                  true,
                  y.1,
                  y.2,
                  rw (x.2) (rw e (rw (y.3) refl)),
                  x.3 ++ y.4.bios,
                  Progress-trans K sid blocks x.3 y.4.bios w x.1 y.2 x.4
                      (Progress-Phase K sid blocks x.1 y.2 y.4),
                  SendsFile-append K V sid blocks ino start end w x.3 y.4.bios x.5,
                )
          ]
