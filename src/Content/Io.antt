-- ===== src/Content/Io.antt =====
-- `readi` and `writei`.
use cs.Base.{
  ℕ, zero, suc, ◌+◌, ◌-◌, ◌/◌, ◌%◌, ◌^◌, Bool, ◌&&◌, ◌||◌, Option, none, some, ◌==◌, ltb, leb,
  if◌then◌else◌, update, ℤ, pos, negsuc, Outcome, ok, ◌>>=◌,
}
use cs.Blocks.{Blocks}
use cs.Content.{bsize, Inode, Fs, iupdate, bmap}

-- `T_DEV`
abbrev pub t_dev : ℕ
t_dev = 3

-- MAXFILE * BSIZE
abbrev pub max_bytes : ℕ
max_bytes = 71680

-- A `uint` as the `int` that is returned.
abbrev pub to_int : ℕ → ℤ
to_int n = if ltb n (2 ^ 31) then pos n else negsuc (2 ^ 32 - n - 1)

-- min(n - tot, BSIZE - off % BSIZE), with `left` for n - tot
abbrev pub piece : ℕ → ℕ → ℕ
piece left off = if ltb left (bsize - off % bsize) then left else bsize - off % bsize

-- `memmove` of `m` bytes.
abbrev pub moved : (ℕ → ℕ) → ℕ → ℕ → (ℕ → ℕ) → ℕ → ℕ → ℕ
moved to at m from start i = if leb at i && ltb i (at + m) then from (start + (i - at)) else to i

-- The loop of `readi` on fuel, with `left` bytes to read; a round reads at least one. The result has
-- the memory last.
unfoldable pub read_from :
    ℕ → ℕ → ℕ → ℕ → (ℕ → ℕ) × Blocks × (ℕ → ℕ) → Outcome ((ℕ → ℕ) × Blocks × (ℕ → ℕ))
read_from zero dst off left r = ok r
read_from (suc fuel) dst off left (addrs, s, mem) =
    let m = piece left off in
    let next = bmap (off / bsize) addrs s >>= λ b.
    read_from fuel (dst + m) (off + m) (left - m)
      (b.0, b.1, moved mem dst m (b.1.bytes b.2) (off % bsize)) in
    if ltb 0 left then next else ok (addrs, s, mem)

abbrev pub write_bytes : ℕ → ℕ → ℕ → (ℕ → ℕ) → ℕ → Blocks → Blocks
write_bytes a at m mem src s = record s {
  bytes = update s.bytes a (moved (s.bytes a) at m mem src);
}

-- The loop of `writei`.
unfoldable pub write_from : ℕ → (ℕ → ℕ) → ℕ → ℕ → ℕ → (ℕ → ℕ) × Blocks → Outcome ((ℕ → ℕ) × Blocks)
write_from zero mem src off left r = ok r
write_from (suc fuel) mem src off left (addrs, s) =
    let m = piece left off in
    let next = bmap (off / bsize) addrs s >>= λ b.
    write_from fuel mem (src + m) (off + m) (left - m)
      (b.0, write_bytes b.2 (off % bsize) m mem src b.1) in
    if ltb 0 left then next else ok (addrs, s)

-- `devsw[major]`: the routine of the device, on the memory, an address and a count.
abbrev pub Device : Type 0
Device = (ℕ → ℕ) → ℕ → ℕ → (ℕ → ℕ) × ℤ

abbrev pub on_device : Option Device → ℕ → ℕ → (ℕ → ℕ) → (ℕ → ℕ) × ℤ
on_device none at n mem = (mem, negsuc 0)
on_device (some d) at n mem = d mem at n

-- `major` is a `short`, negative from 2 ^ 15 on; `NDEV` is 10.
abbrev pub device_of : (ℕ → Option Device) → Inode → Option Device
device_of devsw ip = if leb 10 ip.copy.major then none else devsw ip.copy.major

-- `off > ip->size || off + n < off`
abbrev pub out_of_file : Inode → ℕ → ℕ → Bool
out_of_file ip off n = ltb ip.copy.size off || ltb ((off + n) % 2 ^ 32) off

abbrev pub with_addrs : Inode → (ℕ → ℕ) → Inode
with_addrs ip addrs = record ip { copy = record ip.copy { addrs = addrs } }

abbrev pub with_blocks : Fs → Blocks → Fs
with_blocks fs s = record fs { blocks = s }

abbrev pub clipped : Inode → ℕ → ℕ → ℕ
clipped ip off n = if ltb ip.copy.size ((off + n) % 2 ^ 32) then ip.copy.size - off else n

-- The inode, the disk, the memory and what is returned.
unfoldable pub readi :
    (ℕ → Option Device) → ℕ → ℕ → ℕ → Inode → Fs → (ℕ → ℕ) → Outcome (Inode × Fs × (ℕ → ℕ) × ℤ)
readi devsw dst off n ip fs mem =
    let by_device = on_device (device_of devsw ip) dst n mem in
    let n' = clipped ip off n in
    let from_blocks = read_from n' dst off n' (ip.copy.addrs, fs.blocks, mem) >>= λ r.
    ok (with_addrs ip r.0, with_blocks fs r.1, r.2, to_int n') in
    if ip.copy.type == t_dev
    then ok (ip, fs, by_device.0, by_device.1)
    else if out_of_file ip off n
    then ok (ip, fs, mem, negsuc 0)
    else from_blocks

-- After the loop; `off` is where it ends.
abbrev pub grow_size : ℕ → ℕ → Inode → Fs → Inode × Fs
grow_size off n ip fs =
    let ip' : Inode = record ip { copy = record ip.copy { size = off } } in
    if ltb 0 n && ltb ip.copy.size off then (ip', iupdate ip' fs) else (ip, fs)

abbrev pub wrote : ℕ → ℕ → (ℕ → ℕ) → Inode → Fs → (ℕ → ℕ) × Blocks → Inode × Fs × (ℕ → ℕ) × ℤ
wrote off n mem ip fs r =
    let g = grow_size (off + n) n (with_addrs ip r.0) (with_blocks fs r.1) in
    (g.0, g.1, mem, to_int n)

unfoldable pub writei :
    (ℕ → Option Device) → ℕ → ℕ → ℕ → Inode → Fs → (ℕ → ℕ) → Outcome (Inode × Fs × (ℕ → ℕ) × ℤ)
writei devsw src off n ip fs mem =
    let by_device = on_device (device_of devsw ip) src n mem in
    let to_blocks =
      write_from n mem src off n (ip.copy.addrs, fs.blocks) >>= λ r. ok (wrote off n mem ip fs r) in
    if ip.copy.type == t_dev
    then ok (ip, fs, by_device.0, by_device.1)
    else if out_of_file ip off n
    then ok (ip, fs, mem, negsuc 0)
    else if ltb max_bytes ((off + n) % 2 ^ 32)
    then ok (ip, fs, mem, negsuc 0)
    else to_blocks
