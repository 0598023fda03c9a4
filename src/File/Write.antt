-- ===== src/File/Write.antt =====
-- `filewrite` to an inode writes all bytes in order, though in several transactions.
use cs.Base.{
  ℕ, zero, suc, ◌+◌, ◌-◌, ◌%◌, ◌^◌, ◌<◌, ◌≤◌, ◌≡◌, ◌*◌, ◌/◌, ◌⊎◌, ◌>>=◌, inl, inr, refl, ap, ◌∙◌,
  true, false, ◌&&◌, arith, ◌==◌, ltb, leb, if◌then◌else◌, Bool-cases, ℤ, pos, negsuc, Outcome, ok,
}
use cs.Content.Io.{max_bytes}
use cs.File.{
  File, Layers, max_write, written, write_chunk, after_chunk, write_from, write_as, filewrite,
  fd_inode,
}

module _ (ly : Layers) where
  open ly use {S, view, begin_op, end_op, ilock, iunlock, writei, user}
  open view use {bytes, size, free, IsSound}

  -- Contents with `n` bytes of the user's memory from `addr` on at `off`.
  abbrev pub overwritten : ℕ → ℕ → ℕ → (ℕ → ℕ) → ℕ → ℕ
  overwritten addr off n old j =
      if leb off j && ltb j (off + n) then user (addr + (j - off)) else old j

  -- The same bytes in two steps.
  overwritten_twice :
      (addr off n m : ℕ) (old : ℕ → ℕ) (j : ℕ)
      → overwritten (addr + n) (off + n) m (overwritten addr off n old) j
        ≡ overwritten addr off (n + m) old j
  overwritten_twice addr off n m old j =
      elim (Bool-cases (leb (off + n) j && ltb j (off + n + m))) [
        | inl e ↦
            let whole : (leb off j && ltb j (off + (n + m))) ≡ true = ground arith in
            let at : addr + n + (j - (off + n)) ≡ addr + (j - off) = ground arith in
            rw (e, whole, at) refl
        | inr e ↦ elim (Bool-cases (leb off j && ltb j (off + n))) [
          | inl e1 ↦
              let whole : (leb off j && ltb j (off + (n + m))) ≡ true = ground arith in
              rw (e, e1, whole) refl
          | inr e1 ↦
              let whole : (leb off j && ltb j (off + (n + m))) ≡ false = ground arith in
              rw (e, e1, whole) refl
        ]
      ]

  chunk : ℕ → ℕ → ℕ
  chunk n i = if ltb max_write (n - i) then max_write else n - i

  chunk-le : (n i : ℕ) → i < n → (0 < chunk n i) × (chunk n i ≤ max_write) × (i + chunk n i ≤ n)
  unfolding chunk
  chunk-le n i lt = elim (Bool-cases (ltb max_write (n - i))) [
    | inl e ↦ rw e (omega arith, omega arith, ground arith)
    | inr e ↦ rw e (omega arith, ground arith, omega arith)
  ]

  whole_chunk : (n i k : ℕ) → n - i ≡ suc k → (chunk n i ≡ max_write) ⊎ (chunk n i ≡ suc k)
  unfolding chunk
  whole_chunk n i k e = elim (Bool-cases (ltb max_write (n - i))) [
    | inl b ↦ rw b (inl refl)
    | inr b ↦ rw b (inr e)
  ]

  -- One chunk, and the calls around it.
  record Chunked (f : File) (addr n1 : ℕ) (s u : S) : Type 0 where
    pub sound : IsSound u f.ip
    pub size : f.off + n1 ≤ size u f.ip
    pub free : free s ≤ free u + 5
    pub bytes :
        (j : ℕ) → j < max_bytes → bytes u f.ip j ≡ overwritten addr f.off n1 (bytes s f.ip) j

  chunk_lem :
      (f : File) (addr n1 : ℕ) (s : S)
      → IsSound s f.ip
      → f.off ≤ size s f.ip
      → f.off + n1 ≤ max_bytes
      → n1 ≤ max_write
      → 5 ≤ free s
      → (u : S) × (write_chunk ly f addr n1 s ≡ ok (u, pos n1))
        × Chunked f addr n1 s (end_op (iunlock f.ip u))
  chunk_lem f addr n1 s sound le fits small room =
      let begun = ly.begin_op_kept s f.ip in
      let locked = ly.ilock_kept (begin_op s) f.ip f.ip in
      let s1 = ilock f.ip (begin_op s) in
      let at : size s1 f.ip ≡ size s f.ip = locked.size ∙ begun.size in
      let blocks : free s1 ≡ free s = locked.free ∙ begun.free in
      let (u, e, still, far, cost, new) =
        ly.writei_all s1 f.ip addr f.off n1 (locked.sound (begun.sound sound)) (omega (arith, at))
          fits small (omega (arith, blocks)) in
      let unlocked = ly.iunlock_kept u f.ip f.ip in
      let ended = ly.end_op_kept (iunlock f.ip u) f.ip in
      (
        u,
        e,
        record {
          sound = ended.sound (unlocked.sound still);
          size =
              let whole : size (end_op (iunlock f.ip u)) f.ip ≡ size u f.ip =
                ended.size ∙ unlocked.size in
              omega (arith, far, whole);
          free =
              let kept : free (end_op (iunlock f.ip u)) ≡ free u = ended.free ∙ unlocked.free in
              omega (arith, cost, kept, blocks);
          bytes = λ j lj.
              ended.bytes j
              ∙ unlocked.bytes j
              ∙ new j lj
              ∙ ap (λ x. if leb f.off j && ltb j (f.off + n1) then user (addr + (j - f.off)) else x)
                  (locked.bytes j ∙ begun.bytes j);
        },
      )

  result_here :
      (s : S) (f : File) (i n k : ℕ)
      → (i == n) ≡ true
      → k ≡ 0
      → ◌≡◌ {A = Outcome (S × File × ℤ)}
          (ok (s, f, written i n))
          (ok (s, record f { off = f.off + k }, pos n))
  result_here s f i n k same k0 =
      let off : f.off ≡ f.off + k = omega arith in
      let all : written i n ≡ pos n = rw same refl in
      ap (λ r. ok (s, f, r)) all ∙ ap (λ o. ok (s, record f { off = o }, pos n)) off

  overwritten_none :
      (addr off k : ℕ) (old : ℕ → ℕ) (j : ℕ) → k ≡ 0 → old j ≡ overwritten addr off k old j
  overwritten_none addr off k old j k0 =
      let out : (leb off j && ltb j (off + k)) ≡ false = ground arith in rw out refl

  after_chunk-whole :
      (loop : ℕ → File → S → Outcome (S × File × ℤ)) (f : File) (i n1 : ℕ) (out : S × ℤ)
      → out.1 ≡ pos n1
      → f.off + n1 < 2 ^ 32
      → after_chunk ly loop f i n1 out
        ≡ loop (i + n1) (record f { off = f.off + n1 }) (end_op (iunlock f.ip out.0))
  after_chunk-whole loop f i n1 out e room =
      let same : (n1 == n1) ≡ true = ground arith in
      let off : (f.off + n1) % 2 ^ 32 ≡ f.off + n1 = omega arith in
      rw (e, same)
        (ap (λ o. loop (i + n1) (record f { off = o }) (end_op (iunlock f.ip out.0))) off)

  two_chunks :
      (s s1 : S) (ip addr addr1 off n m k : ℕ)
      → addr1 ≡ addr + n
      → n + m ≡ k
      → (j : ℕ) → bytes s1 ip j ≡ overwritten addr off n (bytes s ip) j
      → overwritten addr1 (off + n) m (bytes s1 ip) j ≡ overwritten addr off k (bytes s ip) j
  two_chunks s s1 ip addr addr1 off n m k at left j h =
      ap (λ x. if leb (off + n) j && ltb j (off + n + m) then user (addr1 + (j - (off + n))) else x)
        h
      ∙ ap (λ a. overwritten a (off + n) m (overwritten addr off n (bytes s ip)) j) at
      ∙ overwritten_twice addr off n m (bytes s ip) j
      ∙ ap (λ x. overwritten addr off x (bytes s ip) j) left

  -- Free blocks that suffice for `n` bytes: five for each transaction.
  abbrev pub blocks_for : ℕ → ℕ
  blocks_for n = 5 * ((n + max_write - 1) / max_write)

  -- What the loop does when `k` bytes are left.
  write_from_lem :
      (fuel addr n i k : ℕ) (f : File) (s : S)
      → i + k ≡ n
      → k ≤ fuel
      → f.off + k ≤ max_bytes
      → f.off ≤ size s f.ip
      → IsSound s f.ip
      → blocks_for k ≤ free s
      → (u : S) × (write_from ly fuel addr n i f s ≡ ok (u, record f { off = f.off + k }, pos n))
        × ((j : ℕ)
            → j < max_bytes
            → bytes u f.ip j ≡ overwritten (addr + i) f.off k (bytes s f.ip) j)
  unfolding write_from chunk
  write_from_lem zero addr n i k f s e le fits within sound room =
      let k0 : k ≡ 0 = omega arith in
      let same : (i == n) ≡ true = ground arith in
      (
        s,
        result_here s f i n k same k0,
        λ j _. overwritten_none (addr + i) f.off k (bytes s f.ip) j k0,
      )
  write_from_lem (suc fuel) addr n i zero f s e le fits within sound room =
      let same : (i == n) ≡ true = ground arith in
      let done : ltb i n ≡ false = ground arith in
      (
        s,
        rw done (result_here s f i n 0 same refl),
        λ j _. overwritten_none (addr + i) f.off 0 (bytes s f.ip) j refl,
      )
  write_from_lem (suc fuel) addr n i (suc k) f s e le fits within sound room =
      let n1 = chunk n i in
      let c = chunk-le n i (omega arith) in
      let c0 = c.0 in
      let c1 = c.1 in
      let c2 = c.2 in
      let more : ltb i n ≡ true = ground arith in
      let (u, wrote, one) =
        chunk_lem f (addr + i) n1 s sound within (omega arith) c1 (omega arith) in
      let f1 = record f { off = f.off + n1 } in
      let s1 = end_op (iunlock f.ip u) in
      let cost = one.free in
      let full : (n1 ≡ max_write) ⊎ (n1 ≡ suc k) = whole_chunk n i k (omega arith) in
      let (v, did, new) =
        write_from_lem fuel addr n (i + n1) (suc k - n1) f1 s1 (omega arith) (omega arith)
          (omega arith) one.size one.sound (omega (arith, cost, full, room)) in
      let left : n1 + (suc k - n1) ≡ suc k = omega arith in
      let at : addr + (i + n1) ≡ addr + i + n1 = omega arith in
      (
        v,
        rw more (
            ap (λ o. o >>= after_chunk ly (write_from ly fuel addr n) f i n1) wrote
            ∙ after_chunk-whole (write_from ly fuel addr n) f i n1 (u, pos n1) refl (omega arith)
            ∙ did
            ∙ ap (λ o. ok (v, record f { off = o }, pos n)) (omega arith)),
        λ j lj.
            new j lj
            ∙ two_chunks s s1 f.ip (addr + i) (addr + (i + n1)) f.off n1 (suc k - n1) (suc k) at
                left j (one.bytes j lj),
      )

  -- `filewrite` of `n` bytes to a writable file of an inode in order, at an offset within it, and not
  -- beyond the largest file, with five free blocks for each transaction of up to 1536 bytes, returns
  -- `n`, however many transactions it takes: the bytes at `addr` then stand at the offset of the
  -- file, which has moved on by `n`, and the rest of the contents is as before.
  pub filewrite_lem :
      (f : File) (addr n : ℕ) (s : S)
      → f.writable ≡ true
      → f.type ≡ fd_inode
      → IsSound s f.ip
      → f.off ≤ size s f.ip
      → f.off + n ≤ max_bytes
      → blocks_for n ≤ free s
      → (u : S) × (filewrite ly f addr (pos n) s ≡ ok (u, record f { off = f.off + n }, pos n))
        × ((j : ℕ) → j < max_bytes → bytes u f.ip j ≡ overwritten addr f.off n (bytes s f.ip) j)
  unfolding filewrite
  filewrite_lem f addr n s w ty sound within fits room =
      let (u, did, new) =
        write_from_lem n addr n 0 n f s (omega arith) (omega arith) fits within sound room in
      (
        u,
        ap (λ b. if b then write_as ly f.type f addr (pos n) s else ok (s, f, negsuc 0)) w
            ∙ ap (λ t. write_as ly t f addr (pos n) s) ty
            ∙ did,
        λ j lj. new j lj ∙ ap (λ x. overwritten x f.off n (bytes s f.ip) j) (omega arith),
      )
