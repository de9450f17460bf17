-- ===== src/Ide.antt =====
-- Lab/code/ide.c: the queue of disk requests, `iderw` up to its wait, `idestart` and `ideintr`. A
-- request is a buffer of the cache, and the first one of the queue is active. The controller's
-- registers are the parameters: what a command does to it, and what `idewait(1)` and `insl` give.
-- `none` is a panic.
use xmu_learning_os.Base.{
  Bool, Bytes, List, Option, [], false, if◌then◌else◌, leb, ltb, none, not, some, true, update, ℕ,
  ◌%◌, ◌&&◌, ◌*◌, ◌++◌, ◌/◌, ◌==◌, ◌^◌, ◌||◌, ◌∷◌,
}
use xmu_learning_os.Bio.{Bcache, Buf}
use xmu_learning_os.Fs.{bsize}
use xmu_learning_os.Proc.{Chan, Kernel}
use xmu_learning_os.Proc.Sleep.{wakeup}
use xmu_learning_os.Sleeplock.{holdingsleep}

-- A command for the controller: device, first sector, number of sectors, and the data of a write.
pub record Command : Type 0 where
  pub dev : ℕ
  pub sector : ℕ
  pub sectors : ℕ
  pub written : Option Bytes

abbrev pub sector_size : ℕ
sector_size = 512

abbrev pub fssize : ℕ
fssize = 1102

-- The queue, whether disk 1 is there, and the controller.
pub record Disk (H : Type 0) : Type 0 where
  pub queue : List ℕ
  pub havedisk1 : Bool
  pub hardware : H

module _ {H : Type 0} (send : Command → H → H) (wait_ok : H → Bool) (receive : H → Bytes) where
  -- The sector has 28 bits in the registers, and the device 1 bit.
  unfoldable pub idestart : Buf → Disk H → Option (Disk H)
  idestart b d =
      let sector_per_block = bsize / sector_size in
      let sector = b.blockno * sector_per_block % 2 ^ 28 in
      let command : Command = record {
        dev = b.dev % 2;
        sector = sector;
        sectors = sector_per_block;
        written = if b.dirty then some b.bytes else none;
      } in
      if leb fssize b.blockno || ltb 7 sector_per_block
      then none
      else some (record d { hardware = send command d.hardware })

  -- `iderw` up to the loop of its sleeps.
  unfoldable pub iderw_queue : ℕ → Bcache → Disk H → Option (Disk H)
  unfolding idestart
  iderw_queue i c d =
      let b = c.buf i in
      let q = record d { queue = d.queue ++ (i ∷ []) } in
      if not (holdingsleep b.lock)
        || (b.valid && not b.dirty)
        || (not (b.dev == 0) && not d.havedisk1)
      then none
      else elim d.queue [ [] ↦ idestart b q | j ∷ js ↦ some q ]

  -- The test of that loop: whether the request is served.
  abbrev pub is_served : ℕ → Bcache → Bool
  is_served i c = (c.buf i).valid && not (c.buf i).dirty

  -- The buffer after its request.
  unfoldable pub serve : H → Buf → Buf
  serve h b = record b {
    bytes = if not b.dirty && wait_ok h then receive h else b.bytes;
    valid = true;
    dirty = false;
  }

  unfoldable pub start_next : List ℕ → Bcache → Disk H → Option (Disk H)
  unfolding idestart
  start_next [] c d = some d
  start_next (j ∷ js) c d = idestart (c.buf j) d

  unfoldable pub ideintr :
      {S : Type 0} → (ℕ → Chan) → Bcache × Disk H × Kernel S → Option (Bcache × Disk H × Kernel S)
  unfolding serve start_next
  ideintr chan (c, d, k) = elim d.queue [
    | [] ↦ some (c, d, k)
    | i ∷ q ↦
        let c' : Bcache = record c { buf = update c.buf i (serve d.hardware (c.buf i)) } in
        elim (start_next q c' (record d { queue = q })) [
          | none ↦ none
          | some d' ↦ some (c', d', wakeup (chan i) k)
        ]
  ]
