-- ===== src/Register.antt =====
-- Setting streams up and handing them out, ccnvme/horae.c: init_streams, olayer_init_stream,
-- olayer_reset_stream, olayer_register_streams and olayer_unregister_streams; and
-- olayer_unregister_all_streams of ccnvme/recovery.c.
pub mod Shares
pub mod Layout
pub mod Lease
pub mod Devices
use ccnvme.Prelude.{
  ℕ, zero, suc, ◌+◌, ◌*◌, ◌/◌, ◌^◌, Bool, true, false, List, [], ◌∷◌, length, replicate, take, ltb,
  ◌==◌, if◌then◌else◌,
}
use ccnvme.Ring.{u64}
use ccnvme.Ometa.{Ometa, ometa_bytes, zero_ometa}
use ccnvme.Kernel.{Kernel}
use ccnvme.State.{Stream, RegisteredDev, Olayer, stream_at, put_stream}
use ccnvme.Journal.{stream_init_journal}
use ccnvme.Checkpoint.{stream_init_cp}
use ccnvme.Submit.{known_sid}
use ccnvme.Kfifo.{Kfifo}

-- `struct init_param`: the arrays are read below `nr_device` only; `registered` is a result.
pub record InitParam : Type 0 where
  pub nr_device : ℕ
  pub device_ids : ℕ → ℕ
  pub sbs : ℕ → ℕ
  pub cmb_device_id : ℕ
  pub parea_partition_hint : ℕ

-- the search of the list of registered devices
unfoldable pub has_registered : List RegisteredDev → ℕ → Bool
has_registered [] id = false
has_registered (d ∷ ds) id = if d.dev_id == id then true else has_registered ds id

-- `for (i = 0; i < nr_device; i++)`: a device that is not there yet is added in front
unfoldable pub register_devices : InitParam → ℕ → ℕ → List RegisteredDev → List RegisteredDev
unfolding has_registered
register_devices param zero i l = l
register_devices param (suc n) i l = register_devices param n (i + 1) (
    if has_registered l (param.device_ids i)
    then l
    else record { dev_id = param.device_ids i; sb = param.sbs i } ∷ l)

-- `list_del_init` of the first device of a number
unfoldable pub delete_dev : List RegisteredDev → ℕ → List RegisteredDev
delete_dev [] id = []
delete_dev (d ∷ ds) id = if d.dev_id == id then ds else d ∷ delete_dev ds id

unfoldable pub delete_devs : List ℕ → List RegisteredDev → List RegisteredDev
unfolding delete_dev
delete_devs [] l = l
delete_devs (id ∷ ids) l = delete_devs ids (delete_dev l id)

-- `nr_streams` is the module's parameter, 0 for a stream on each processor that there may be.
abbrev pub used_streams : ℕ → ℕ → ℕ
used_streams nr_streams possible_cpus = if nr_streams == 0 then possible_cpus else nr_streams

module _ (K : Kernel) where
  unfoldable pub olayer_init_stream : ℕ → InitParam → Olayer K → Olayer K
  unfolding known_sid
  olayer_init_stream sid param w =
      let id = known_sid K w sid in
      put_stream K w id (record (stream_at K w id) {
        nr_devices = param.nr_device;
        cmb_device_id = param.cmb_device_id;
      })

  -- what olayer_reset_stream makes of a stream; `memset` clears `ometa_size` bytes
  abbrev pub reset : Stream → Stream
  reset s = record s {
    head = 0;
    tail = 0;
    tail_watermark = 0;
    flushed = 0;
    nr_devices = 0;
    cmb_device_id = 0;
    delegated_bio = 0;
    done_by_self_bio = 0;
    committed = false;
    last_queue_flushed = 0;
    ometa = replicate (s.ometa_size / ometa_bytes) zero_ometa;
  }

  unfoldable pub olayer_reset_stream : ℕ → Olayer K → Olayer K
  unfolding known_sid
  olayer_reset_stream sid w =
      let id = known_sid K w sid in put_stream K w id (reset (stream_at K w id))

  unfoldable pub init_each : List ℕ → InitParam → Olayer K → Olayer K
  init_each [] param w = w
  init_each (sid ∷ sids) param w = init_each sids param (olayer_init_stream sid param w)

  unfoldable pub reset_each : List ℕ → Olayer K → Olayer K
  reset_each [] w = w
  reset_each (sid ∷ sids) w = reset_each sids (olayer_reset_stream sid w)

module _ (K : Kernel) (Q : Kfifo) where
  open Q use {Fifo, fifo_alloc, fifo_in, fifo_out, capacity, roundup_pow_of_two}

  -- the state with `free_stream_q`
  pub record Pool : Type 0 where
    pub layer : Olayer K
    pub free_stream_q : Fifo

  -- The streams that are handed out, and the pool behind it; their number is `registered`.
  unfoldable pub olayer_register_streams : ℕ → InitParam → Pool → List ℕ × Pool
  unfolding register_devices init_each
  olayer_register_streams nr param p =
      let wanted = if ltb p.layer.nr_streams nr then p.layer.nr_streams else nr in
      let w = record p.layer {
        registered_list = register_devices param param.nr_device 0 p.layer.registered_list;
      } in
      let (strs, q) = fifo_out p.free_stream_q wanted in
      (
        strs,
        record {
          layer = record (init_each K strs param w) {
            blocks_per_group = param.parea_partition_hint;
          };
          free_stream_q = q;
        },
      )

  -- `devs` are the numbers of the disks of the block devices.
  unfoldable pub olayer_unregister_streams : List ℕ → List ℕ → Pool → Pool
  unfolding delete_devs reset_each
  olayer_unregister_streams strs devs p =
      let w = record p.layer { registered_list = delete_devs devs p.layer.registered_list } in
      let (unregistered, q) = fifo_in p.free_stream_q strs in
      record { layer = reset_each K (take unregistered strs) w; free_stream_q = q }

  -- `while (kfifo_get(...))`, with the capacity of the queue as fuel
  unfoldable pub drain : ℕ → Pool → Pool
  drain zero p = p
  drain (suc fuel) p =
      let (got, q) = fifo_out p.free_stream_q 1 in
      elim got [
        | [] ↦ p
        | sid ∷ sids ↦
            drain fuel (record { layer = olayer_reset_stream K sid p.layer; free_stream_q = q })
      ]

  unfoldable pub olayer_unregister_all_streams : Pool → Pool
  unfolding drain
  olayer_unregister_all_streams p =
      drain (capacity p.free_stream_q)
        (record p { layer = record p.layer { registered_list = [] } })

  -- A stream is set up in the memory that kmalloc has given for it and for its queue, whatever
  -- that held.
  unfoldable pub new_stream : (ℕ → Stream) → Olayer K → ℕ → Stream
  new_stream memory w i =
      let nr = w.olog_size / ometa_bytes / w.nr_streams in
      stream_init_journal K w (
        stream_init_cp K w (record (memory i) {
          head = 0;
          tail = 0;
          tail_watermark = 0;
          flushed = 0;
          last_queue_flushed = 0;
          stream_id = i;
          nr_ometa = nr;
          ometa_size = nr * ometa_bytes;
          off_in_cmb = u64 (i * (nr * ometa_bytes));
          delegated_bio = 0;
          done_by_self_bio = 0;
          committed = false;
        }))

  unfoldable pub setup_streams : (ℕ → Stream) → Olayer K → ℕ → ℕ → Fifo → List Stream × Fifo
  unfolding new_stream
  setup_streams memory w zero i q = ([], q)
  setup_streams memory w (suc n) i q =
      let (rest, q') = setup_streams memory w n (i + 1) (fifo_in q (i ∷ [])).1 in
      (new_stream memory w i ∷ rest, q')

  unfoldable pub init_streams : (ℕ → Stream) → ℕ → Olayer K → Pool
  unfolding setup_streams
  init_streams memory possible_cpus w =
      let nr = used_streams w.nr_streams possible_cpus in
      let w1 = record w {
        nr_streams = nr;
        registered_list = [];
        ipu_tree = λ t. K.tree_empty;
        blocks_per_group = 1;
      } in
      let (streams, q) = setup_streams memory w1 nr 0 (fifo_alloc (roundup_pow_of_two nr * 4)) in
      record { layer = record w1 { streams = streams }; free_stream_q = q }
