-- ===== src/Peers/Downloads.antt =====
-- network/p2phandlers/block.go: which blocks a turn of `downloadBlocks` asks for.
use plasma.Bytes.{zero_hash, Hash}
use plasma.Peers.Blocks.{interval, proceed, download_loop}
use plasma.Prelude.{
  ℕ, zero, suc, ◌+◌, ◌-◌, ◌*◌, ◌/◌, ◌≤◌, ◌<◌, ◌≡◌, refl, sym, ap, ◌∙◌, fun_ext, inl, inr, Bool,
  true, List, [], ◌∷◌, arith, leb, ◌==◌, if◌then◌else◌, ==-refl, Bool-cases,
}
use plasma.Prelude.Outcome.{Outcome, ok, ◌>>=◌}

module _ (root_at : ℕ → Hash) where
  -- of `len` numbers from `n` on, those that the root chain has a root for
  abbrev pub published : ℕ → ℕ → List ℕ
  published zero n = []
  published (suc len) n =
      if root_at n == zero_hash then published len (n + 1) else n ∷ published len (n + 1)

  -- from block 1 on: after a number without a root there is none up to the next submitted block
  abbrev pub IsContiguous : Type 0
  IsContiguous =
      (n m : ℕ)
      → 1 ≤ n
      → root_at n ≡ zero_hash
      → n ≤ m
      → m / interval ≡ n / interval
      → root_at m ≡ zero_hash

  -- the numbers from `n` on without a root leave nothing, or are skipped
  published_none :
      (gap len n : ℕ)
      → ((m : ℕ) → n ≤ m → m < n + gap → root_at m ≡ zero_hash)
      → len ≤ gap
      → published len n ≡ []
  published_none gap zero n empty small = refl
  published_none zero (suc len) n empty small = absurd (omega (arith, small))
  published_none (suc gap) (suc len) n empty small =
      let zero_root : (root_at n == zero_hash) ≡ true =
        rw (empty n (omega arith) (omega arith)) (==-refl zero_hash) in
      rw zero_root (
        published_none gap len (n + 1) (λ m lo hi. empty m (omega (arith, lo)) (omega (arith, hi)))
          (omega (arith, small)))

  published_skip :
      (gap total len n : ℕ)
      → ((m : ℕ) → n ≤ m → m < n + gap → root_at m ≡ zero_hash)
      → total ≡ gap + len
      → published total n ≡ published len (n + gap)
  published_skip zero total len n empty e =
      let same : total ≡ len = omega (arith, e) in
      let start : n ≡ n + 0 = omega arith in rw same (ap (published len) start)
  published_skip (suc gap) zero len n empty e = absurd (omega (arith, e))
  published_skip (suc gap) (suc total) len n empty e =
      let zero_root : (root_at n == zero_hash) ≡ true =
        rw (empty n (omega arith) (omega arith)) (==-refl zero_hash) in
      let start : n + 1 + gap ≡ n + suc gap = omega arith in
      rw zero_root (
        published_skip gap total len (n + 1)
          (λ m lo hi. empty m (omega (arith, lo)) (omega (arith, hi))) (omega (arith, e))
        ∙ ap (published len) start)

  -- the jump to the next submitted block leaves out nothing
  published_jump :
      (n jump max : ℕ)
      → IsContiguous
      → 1 ≤ n
      → root_at n ≡ zero_hash
      → jump ≡ n / interval * interval + interval - 1 + 1
      → published (max + 1 - n) n ≡ published (max + 1 - jump) jump
  published_jump n jump max contiguous from none_at e =
      let empty : (m : ℕ) → n ≤ m → m < n + (jump - n) → root_at m ≡ zero_hash =
        λ m lo hi. contiguous n m from none_at lo (omega (arith, lo, hi, e)) in
      elim (Bool-cases (leb jump (max + 1))) [
        | inl b ↦
            let within : jump ≤ max + 1 = ground (arith, b) in
            let start : n + (jump - n) ≡ jump = omega (arith, e) in
            published_skip (jump - n) (max + 1 - n) (max + 1 - jump) n empty
              (omega (arith, within, e))
            ∙ ap (published (max + 1 - jump)) start
        | inr b ↦
            let beyond : max + 1 < jump = ground (arith, b) in
            let nothing : max + 1 - jump ≡ 0 = omega (arith, beyond) in
            published_none (jump - n) (max + 1 - n) n empty (omega (arith, beyond))
            ∙ rw nothing refl
      ]

module _ {T : Type 0} (root_at : ℕ → Hash) (fetch : ℕ → T → Outcome (Bool × T)) where
  -- one number after the other, up to the first failure
  abbrev pub fetch_each : List ℕ → T → Outcome (Bool × T)
  fetch_each [] t = ok (true, t)
  fetch_each (n ∷ ns) t = fetch n t >>= proceed root_at fetch (fetch_each ns)

  -- If a number from 1 on without a root has none after it up to the next submitted block, the loop,
  -- from such a number on and on fuel for each number up to `max`, asks for exactly the numbers that
  -- have a root, in order, up to the first failure.
  pub download_loop-fetches :
      (fuel n max : ℕ) (t : T)
      → IsContiguous root_at
      → 1 ≤ n
      → max + 1 - n ≤ fuel
      → download_loop root_at fetch fuel n max t ≡ fetch_each (published root_at (max + 1 - n) n) t
  unfolding download_loop
  download_loop-fetches zero n max t contiguous from enough =
      let nothing : max + 1 - n ≡ 0 = omega (arith, enough) in rw nothing refl
  download_loop-fetches (suc fuel) n max t contiguous from enough = elim (Bool-cases (leb n max)) [
    | inr b ↦
        let beyond : max < n = ground (arith, b) in
        let nothing : max + 1 - n ≡ 0 = omega (arith, beyond) in rw (b, nothing) refl
    | inl b ↦
        let within : n ≤ max = ground (arith, b) in
        elim (Bool-cases (root_at n == zero_hash)) [
          | inl z ↦
              let none_at : root_at n ≡ zero_hash = ground (arith, z) in
              let jump = n / interval * interval + interval - 1 + 1 in
              rw (b, z)
                (download_loop-fetches fuel jump max t contiguous (omega arith)
                    (omega (arith, enough, within))
                  ∙ ap (λ ns. fetch_each ns t)
                      (sym (published_jump root_at n jump max contiguous from none_at refl)))
          | inr z ↦
              let more : max + 1 - n ≡ suc (max + 1 - (n + 1)) = omega (arith, within) in
              rw (b, z, more, z)
                (ap (λ rest. fetch n t >>= proceed root_at fetch rest)
                  (fun_ext (λ t'.
                    download_loop-fetches fuel (n + 1) max t' contiguous (omega arith)
                      (omega (arith, enough, within)))))
        ]
  ]
