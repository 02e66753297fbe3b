-- ===== src/HeaderChain/Import.antt =====
-- core/headerchain.go: headers that come in batches. What the consensus engine and its verifier
-- answer for each header is a list of results, `none` for nil; `procInterrupt` is asked before each
-- header, and its answers are a function of the index.
use plasma.HeaderChain.{HeaderChain, HeaderCaches, has_header}
use plasma.Prelude.{
  ℕ, suc, ◌+◌, ◌%◌, ◌^◌, Bool, true, ◌&&◌, ◌||◌, not, Option, none, some, List, [], ◌∷◌, map, ◌==◌,
  if◌then◌else◌, length,
}
use plasma.Prelude.Outcome.{non_contiguous_insert, aborted, Outcome, ok, panic, Error}
use plasma.Store.{Database}
use plasma.Types.Block.{header_number, Header}
use plasma.Types.External.{header_hash, External}

-- an index, and an error or nil
abbrev pub Import : Type 0
Import = ℕ × Option Error

module _ (x : External) where
  -- `chain[i]` follows `chain[i-1]`, by number and by parent hash
  unfoldable pub follows : Header → Header → Bool
  follows h next =
      (header_number next == (header_number h + 1) % 2 ^ 64)
      && (next.parent_hash == header_hash x h)

  -- the loop over the neighbours
  unfoldable pub is_contiguous : List Header → Bool
  unfolding follows
  is_contiguous [] = true
  is_contiguous (h ∷ []) = true
  is_contiguous (h ∷ next ∷ chain) = follows h next && is_contiguous (next ∷ chain)

-- the loop over the results, which stops at the first error; `i` counts the headers
unfoldable pub check_results : (ℕ → Bool) → ℕ → List (Option Error) → Import
check_results interrupted i [] = (0, none)
check_results interrupted i (r ∷ results) =
    let rest = check_results interrupted (suc i) results in
    if interrupted i then (0, some aborted) else elim r [ some e ↦ (i, some e) | none ↦ rest ]

module _ (x : External) where
  -- `ValidateHeaderChain`, with one result for each header and a `checkFreq` that is not negative.
  -- No header at all, or a `checkFreq` of 0, panics.
  unfoldable pub validate_header_chain :
      ℕ → (ℕ → Bool) → List (Header × Option Error) → Outcome Import
  unfolding is_contiguous check_results
  validate_header_chain check_freq interrupted chain =
      if not (is_contiguous x (map (λ c. c.0) chain))
      then ok (0, some non_contiguous_insert)
      else if check_freq == 0 || length chain == 0
      then panic
      else ok (check_results interrupted 0 (map (λ c. c.1) chain))

module _ {S C : Type 0} (d : Database S) (lru : HeaderCaches C) (x : External)
    (write : Header → HeaderChain S C → Option Error × HeaderChain S C) where
  -- one header of `InsertHeaderChain`: a known one is skipped
  import_one : Header → HeaderChain S C → Option Error × HeaderChain S C
  import_one h hc =
      if has_header d lru x (header_hash x h) (header_number h) hc then (none, hc) else write h hc

  import_loop : (ℕ → Bool) → ℕ → List Header → HeaderChain S C → Import × HeaderChain S C
  unfolding import_one
  import_loop interrupted i [] hc = ((0, none), hc)
  import_loop interrupted i (h ∷ chain) hc =
      let done = import_one h hc in
      let rest = import_loop interrupted (suc i) chain done.1 in
      if interrupted i
      then ((i, some aborted), hc)
      else elim done.0 [ some e ↦ ((i, some e), done.1) | none ↦ rest ]

  -- `InsertHeaderChain`: without headers the statistics index before the first one
  unfoldable pub insert_header_chain :
      (ℕ → Bool) → List Header → HeaderChain S C → Outcome (Import × HeaderChain S C)
  unfolding import_loop
  insert_header_chain interrupted [] hc = panic
  insert_header_chain interrupted (h ∷ chain) hc = ok (import_loop interrupted 0 (h ∷ chain) hc)
