-- ===== src/Content/Truncate.antt =====
-- `itrunc` gives back every block of an inode and no other.
use cs.Base.{
  ℕ, zero, suc, ◌+◌, ◌-◌, ◌<◌, ◌≤◌, ◌≡◌, ◌≢◌, refl, ap, sym, ◌∙◌, Bool, true, ◌&&◌, ◌||◌, arith,
  ◌==◌, ltb, leb, Bool-cases, inl, inr, subst, ℕ_discrete, update, update_self, update_ne, ok,
  ◌>>=◌,
}
use cs.Blocks.{Blocks, bfree}
use cs.Content.{
  ndirect, nindirect, word_at, Inode, Fs, iupdate, free_direct, free_entries, free_indirect,
  truncated, itrunc,
}
use cs.Content.Entries.{word_at_same}
use cs.Content.Slots.{entry, slot, IsMapped}
use cs.Content.Bmap.{low_slot, high_slot, entry_nz}
use cs.Content.Freed.{Freed, Freed-same, more-Freed, bfree-Freed}

module _ (addrs : ℕ → ℕ) (s : Blocks) (m : IsMapped addrs s) where
  -- The first loop.
  free_direct_lem :
      (n i : ℕ) (a : ℕ → ℕ) (u : Blocks)
      → i + n ≡ ndirect
      → ((k : ℕ) → i ≤ k → a k ≡ addrs k)
      → ((k : ℕ) → k < i → a k ≡ 0)
      → Freed addrs s (λ k. ltb k i) u
      → (a' : ℕ → ℕ) × (v : Blocks) × (free_direct n i a u ≡ ok (a', v))
        × ((k : ℕ) → k < ndirect → a' k ≡ 0)
        × (a' ndirect ≡ addrs ndirect)
        × Freed addrs s (λ k. ltb k ndirect) v
  unfolding free_direct
  free_direct_lem zero i a u e same zeros f =
      let at : i ≡ ndirect = omega arith in
      (
        a,
        u,
        refl,
        λ k lt. zeros k (omega arith),
        same ndirect (omega arith),
        subst (λ x. Freed addrs s (λ k. ltb k x) u) at f,
      )
  free_direct_lem (suc n) i a u e same zeros f =
      let own : slot addrs s i ≡ a i =
        low_slot addrs s i (omega arith) ∙ sym (same i (omega arith)) in
      elim (Bool-cases (a i == 0)) [
        | inl z ↦
            let z' : a i ≡ 0 = ground arith in
            let rest =
              free_direct_lem n (i + 1) a u (omega arith) (λ k le. same k (omega arith))
                (λ k lt. elim (ℕ_discrete k i) [
                  | yes eq ↦ ap a eq ∙ z'
                  | no ne ↦ zeros k (omega arith)
                ])
                (more-Freed addrs s m (λ k. ltb k i) (λ k. ltb k (i + 1)) u (λ k d. ground arith)
                  (λ k lt d nd. let eq : k ≡ i = ground arith in ap (slot addrs s) eq ∙ own ∙ z')
                  f) in
            (rest.0, rest.1, rw z rest.2, rest.3, rest.4, rest.5)
        | inr nz ↦
            let nz' : slot addrs s i ≢ 0 =
              λ x. let x' : a i ≡ 0 = sym own ∙ x in absurd (ground arith) in
            let out = bfree-Freed addrs s m (λ k. ltb k i) u i (omega arith) (ground arith) nz' f in
            let a1 = update a i 0 in
            let rest =
              free_direct_lem n (i + 1) a1 out.0 (omega arith)
                (λ k le. update_ne a i k 0 (λ x. omega arith) ∙ same k (omega arith))
                (λ k lt. elim (ℕ_discrete i k) [
                  | yes eq ↦ ap a1 (sym eq) ∙ update_self a i 0
                  | no ne ↦ update_ne a i k 0 ne ∙ zeros k (omega arith)
                ])
                (Freed-same addrs s m (λ k. ltb k i || (i == k)) (λ k. ltb k (i + 1)) out.0
                  (λ k lt. ground arith) out.2) in
            (
              rest.0,
              rest.1,
              rw nz (
                  ap (λ x. bfree x u >>= free_direct n (i + 1) a1) (sym own)
                  ∙ ap (λ o. o >>= free_direct n (i + 1) a1) out.1
                  ∙ rest.2),
              rest.3,
              rest.4,
              rest.5,
            )
      ]

  -- The slots freed after `j` entries.
  abbrev up_to_entry : ℕ → ℕ → Bool
  up_to_entry j k = ltb k ndirect || (leb 13 k && ltb k (j + 13))

  free_entries_lem :
      (n j : ℕ) (u : Blocks)
      → j + n ≡ nindirect
      → addrs ndirect ≢ 0
      → Freed addrs s (up_to_entry j) u
      → (v : Blocks) × (free_entries n j (addrs ndirect) u ≡ ok v)
        × Freed addrs s (up_to_entry nindirect) v
  unfolding free_entries
  free_entries_lem zero j u e ind f =
      let at : j ≡ nindirect = omega arith in
      (u, refl, subst (λ x. Freed addrs s (up_to_entry x) u) at f)
  free_entries_lem (suc n) j u e ind f =
      let b = addrs ndirect in
      let back : j + 13 - 13 ≡ j = omega arith in
      let own : slot addrs s (j + 13) ≡ word_at (u.bytes b) j =
        high_slot addrs s (j + 13) (omega arith)
        ∙ entry_nz b (j + 13 - 13) s ind
        ∙ ap (word_at (s.bytes b)) back
        ∙ sym (word_at_same (u.bytes b) (s.bytes b) j (f.bytes b (m.held 12 (omega arith) ind))) in
      let v = word_at (u.bytes b) j in
      elim (Bool-cases (v == 0)) [
        | inl z ↦
            let z' : v ≡ 0 = ground arith in
            let rest = free_entries_lem n (j + 1) u (omega arith) ind (
              more-Freed addrs s m (up_to_entry j) (up_to_entry (j + 1)) u (λ k d. ground arith)
                (λ k lt d nd. let eq : k ≡ j + 13 = ground arith in ap (slot addrs s) eq ∙ own ∙ z')
                f) in
            (rest.0, rw z rest.1, rest.2)
        | inr nz ↦
            let nz' : slot addrs s (j + 13) ≢ 0 =
              λ x. let x' : v ≡ 0 = sym own ∙ x in absurd (ground arith) in
            let out =
              bfree-Freed addrs s m (up_to_entry j) u (j + 13) (omega arith) (ground arith) nz' f in
            let rest = free_entries_lem n (j + 1) out.0 (omega arith) ind (
              Freed-same addrs s m (λ k. up_to_entry j k || (j + 13 == k)) (up_to_entry (j + 1))
                out.0 (λ k lt. ground arith) out.2) in
            (
              rest.0,
              rw nz (
                  ap (λ x. bfree x u >>= free_entries n (j + 1) b) (sym own)
                  ∙ ap (λ o. o >>= free_entries n (j + 1) b) out.1
                  ∙ rest.1),
              rest.2,
            )
      ]

  free_indirect_lem :
      (a : ℕ → ℕ) (u : Blocks)
      → a ndirect ≡ addrs ndirect
      → Freed addrs s (λ k. ltb k ndirect) u
      → (a' : ℕ → ℕ) × (v : Blocks) × (free_indirect (a, u) ≡ ok (a', v))
        × ((k : ℕ) → k < ndirect → a' k ≡ a k)
        × (a' ndirect ≡ 0)
        × Freed addrs s (λ _. true) v
  unfolding free_indirect
  free_indirect_lem a u at f = elim (Bool-cases (a ndirect == 0)) [
    | inl z ↦
        let z' : addrs ndirect ≡ 0 = (let x : a ndirect ≡ 0 = ground arith in sym at ∙ x) in
        (
          a,
          u,
          rw z refl,
          λ k _. refl,
          at ∙ z',
          more-Freed addrs s m (λ k. ltb k ndirect) (λ _. true) u (λ _ _. refl)
              (λ k lt _ d. elim (ℕ_discrete k 12) [
                | yes e ↦ ap (slot addrs s) e ∙ z'
                | no ne ↦ high_slot addrs s k (ground arith) ∙ ap (λ x. entry x (k - 13) s) z'
              ])
              f,
        )
    | inr nz ↦
        let has : addrs ndirect ≢ 0 =
          λ x. let x' : a ndirect ≡ 0 = at ∙ x in absurd (ground arith) in
        let entries =
          free_entries_lem nindirect 0 u (omega arith) has (
            Freed-same addrs s m (λ k. ltb k ndirect) (up_to_entry 0) u (λ k lt. ground arith) f) in
        let out =
          bfree-Freed addrs s m (up_to_entry nindirect) entries.0 12 (omega arith) (ground arith)
            has entries.2 in
        (
          update a ndirect 0,
          out.0,
          rw nz (
              ap (λ x. free_entries nindirect 0 x u >>= bfree x >>= λ v. ok (update a ndirect 0, v))
                at
              ∙ ap (λ o. o >>= bfree (addrs ndirect) >>= λ v. ok (update a ndirect 0, v)) entries.1
              ∙ ap (λ o. o >>= λ v. ok (update a ndirect 0, v)) out.1),
          λ k lt. update_ne a ndirect k 0 (λ x. omega arith),
          update_self a ndirect 0,
          Freed-same addrs s m (λ k. up_to_entry nindirect k || (12 == k)) (λ _. true) out.0
              (λ k lt. ground arith) out.2,
        )
  ]

-- `itrunc` of an inode whose blocks are in use and different returns: the inode is empty and has no
-- block, the disk has it so, each block that it had is free, and every other block is as it was, in
-- use or not and, if it is in use outside of the bitmap, with its contents.
pub itrunc_lem :
    (ip : Inode) (fs : Fs)
    → IsMapped ip.copy.addrs fs.blocks
    → (ip' : Inode) × (fs' : Fs) × (itrunc ip fs ≡ ok (ip', fs'))
      × (ip'.copy.size ≡ 0)
      × ((k : ℕ) → k ≤ ndirect → ip'.copy.addrs k ≡ 0)
      × (fs'.dinodes ip'.inum ≡ ip'.copy)
      × Freed ip.copy.addrs fs.blocks (λ _. true) fs'.blocks
unfolding itrunc iupdate
itrunc_lem ip fs m =
    let s = fs.blocks in
    let direct =
      free_direct_lem ip.copy.addrs s m ndirect 0 ip.copy.addrs s (omega arith) (λ _ _. refl)
        (λ k lt. absurd (omega arith))
        (record {
          gone = λ k lt d _. absurd (ground arith);
          rest = λ n _. refl;
          bytes = λ _ _ _. refl;
          size = refl;
          start = refl;
        }) in
    let indirect = free_indirect_lem ip.copy.addrs s m direct.0 direct.1 direct.4 direct.5 in
    let r = truncated ip fs (indirect.0, indirect.1) in
    (
      r.0,
      r.1,
      ap (λ o. o >>= free_indirect >>= λ q. ok (truncated ip fs q)) direct.2
          ∙ ap (λ o. o >>= λ q. ok (truncated ip fs q)) indirect.2,
      refl,
      λ k le. elim (ℕ_discrete k ndirect) [
        | yes e ↦ ap indirect.0 e ∙ indirect.4
        | no ne ↦ indirect.3 k (omega arith) ∙ direct.3 k (omega arith)
      ],
      ap (λ c. c) (update_self fs.dinodes ip.inum r.0.copy),
      indirect.5,
    )
