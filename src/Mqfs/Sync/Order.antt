-- ===== src/Mqfs/Sync/Order.antt =====
-- The order in which fsync sends a transaction (mqfs/fsync.c and mqfs/filemap_compat.c): the
-- journaled writes, the block that describes them, and then the end mark.
use ccnvme.Prelude.{ℕ, ◌*◌, ◌≤◌, ◌≡◌, refl, arith, Bool, false, List, some}
use ccnvme.Kernel.{Kernel, Bio, submit_bio}
use ccnvme.State.{Olayer, emit}
use ccnvme.Journal.Bounds.{Reserved}
use ccnvme.Journal.Alloc.{alloc-Reserved}
use ccnvme.Submit.{stream_commit_tx}
use ccnvme.Submit.Marks.{Closed, commit_tx-Closed}
use ccnvme.Submit.Chain.{Ready, Writes, Ready-frame, Ready-Reserved}
use ccnvme.Mqfs.{Mqfs, Vfs}
use ccnvme.Mqfs.Inodes.Phase.{IsSane}
use ccnvme.Mqfs.Inodes.Parents.{Ends}
use ccnvme.Mqfs.Sync.{jh_bio, page_size, end_tx, submit_tx}
use ccnvme.Mqfs.Sync.Progress.{DataIsJournaled, SendsFile}
use ccnvme.Mqfs.Sync.File.{submit_file-Progress}

module _ (K : Kernel) where
  module _ (V : Vfs K) (sid blocks : ℕ) where
    -- The end of a transaction comes back on a ready stream.
    pub end_tx_total :
        1 ≤ blocks
        → (l : Olayer K) → Ready K sid blocks l
        → (l' : Olayer K) × (end_tx K V sid l ≡ some l')
    unfolding end_tx
    end_tx_total one l r =
        let a = alloc-Reserved K sid 1 jh_bio l r.sound (omega (arith, one, r.region)) in
        (
          stream_commit_tx K sid (
              emit K
                (submit_bio
                  (record jh_bio { dev = (a.1).cp_dev; sector = a.0 * 8; size = page_size }))
                a.1),
          rw (a.2) refl,
        )

    module _ (written : DataIsJournaled K V sid blocks) where
      -- How the transaction of a file is sent: its writes are journaled, those of the file first;
      -- then a block of the journal is taken and the description block sent to it, and then the
      -- stream is committed.
      pub record Ordered (ino start end : ℕ) (w w' : Mqfs K) : Type 0 where
        pub sbi : w'.sbi ≡ w.sbi
        pub bios : List Bio
        pub behind_writes : Olayer K
        pub ptr : ℕ
        pub behind_block : Olayer K
        pub file : SendsFile K V sid blocks ino start end w bios
        pub writes : Writes K sid bios w.layer behind_writes
        pub reserved : Reserved K sid 1 ptr behind_writes behind_block
        pub behind_description : Olayer K
        pub described :
            behind_description
            ≡ emit K
                (submit_bio
                  (record jh_bio { dev = behind_block.cp_dev; sector = ptr * 8; size = page_size }))
                behind_block
        pub committed : w'.layer ≡ stream_commit_tx K sid behind_description
        pub closed : Closed K sid behind_description w'.layer

      -- A file is written on a ready stream of a sane file system, whose inode lock is free and
      -- above whose inode the new entries end within the fuel; the data is journaled by the kernel.
      -- Then the writes of the transaction are sent, and in this order: all of its journaled
      -- writes, beginning with the file's data and its dirty buffers, the block that describes it to a block of the stream's journal region, and the end
      -- mark behind the queue.
      pub submit_tx-Ordered :
          1 ≤ blocks
          → (fuel ino start end : ℕ) (datasync : Bool) (w : Mqfs K) → Ready K sid blocks w.layer
          → IsSane K blocks w
          → (w.inodes ino).held ≡ false
          → Ends K V fuel (λ i. (w.inodes i).newentry) ino
          → (p : Bool) × (ws : List ℕ) × (w' : Mqfs K) × (submit_tx K V fuel ino start end datasync
                sid w
              ≡ some (p, ws, w'))
            × Ordered ino start end w w'
      unfolding submit_tx end_tx emit
      submit_tx-Ordered one fuel ino start end datasync w r v free ends =
          let x =
            submit_file-Progress K V sid blocks written fuel ino start end datasync w r v free
              ends in
          let l1 = (x.2).layer in
          let r1 = x.5.ready in
          let a = alloc-Reserved K sid 1 jh_bio l1 r1.sound (omega (arith, one, r1.region)) in
          let l3 =
            emit K
              (submit_bio
                (record jh_bio { dev = (a.1).cp_dev; sector = a.0 * 8; size = page_size }))
              a.1 in
          let r3 =
            Ready-frame K sid blocks a.1 l3 refl
              (Ready-Reserved K sid blocks 1 a.0 l1 a.1 r1 a.3) in
          (
            x.0,
            x.1,
            record (x.2) { layer = stream_commit_tx K sid l3 },
            rw (x.3) (rw (a.2) refl),
            record {
              sbi = x.5.sbi;
              bios = x.4;
              behind_writes = l1;
              ptr = a.0;
              behind_block = a.1;
              file = x.6;
              writes = x.5.writes;
              reserved = a.3;
              behind_description = l3;
              described = refl;
              committed = refl;
              closed = commit_tx-Closed K sid l3 r3.sound r3.quiet;
            },
          )
