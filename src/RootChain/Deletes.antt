-- ===== src/RootChain/Deletes.antt =====
-- core/rootchain.go: the deletion of the records of a block's events.
use plasma.Bytes.{Bytes}
use plasma.Prelude.{
  ◌≡◌, refl, sym, subst, ◌≢◌, Option, none, some, List, [], ◌∷◌, ◌++◌, map, append_assoc,
  append-nil, arith, if◌then◌else◌, bytes_equal, bytes_equal_refl, bytes_equal_ne, length, All,
}
use plasma.RootChain.{delete_each, del_last_block_event_hash}
use plasma.Store.{delete, Write, after_writes, Database}
use plasma.Store.Laws.{IsStore, View}

after_deletes :
    (ks : List Bytes) (j : Bytes) (before : Option Bytes)
    → before ≡ none
    → after_writes (map delete ks) j before ≡ none
after_deletes [] j before e = e
after_deletes (k ∷ ks) j before e =
    after_deletes ks j (if bytes_equal k j then none else before) (ground (arith, e))

-- the deletion of all keys: they are gone, and every other key reads as before
pub deleted-gone :
    (ks : List Bytes) (view : View) → All (λ j. after_writes (map delete ks) j (view j) ≡ none) ks
deleted-gone [] view = tt
deleted-gone (k ∷ ks) view = (
  after_deletes ks k (if bytes_equal k k then none else view k) (rw (bytes_equal_refl k) refl),
  deleted-gone ks (λ j. if bytes_equal k j then none else view j),
)

pub deleted-other :
    (ks : List Bytes) (j : Bytes) (before : Option Bytes)
    → All (λ k. length k ≡ 16) ks
    → length j ≢ 16
    → after_writes (map delete ks) j before ≡ before
deleted-other [] j before a l = refl
deleted-other (k ∷ ks) j before a l =
    let other = bytes_equal_ne k j (λ e. l (subst (λ i. length i ≡ 16) e a.0)) in
    subst (λ b. after_writes (map delete ks) j (if b then none else before) ≡ before) (sym other)
      (deleted-other ks j before a.1 l)

module _ {S : Type 0} (d : Database S) {Models : S → View → Option (List Write) → Type 0}
    (store : IsStore d Models) where
  delete_each-pending :
      (ks : List Bytes) (s : S) (view : View) (ws : List Write)
      → Models s view (some ws)
      → Models (delete_each d ks s) view (some (ws ++ map delete ks))
  unfolding delete_each
  delete_each-pending [] s view ws m = rw (append-nil ws) m
  delete_each-pending (k ∷ ks) s view ws m =
      subst (λ p. Models (delete_each d ks (d.delete k s).1) view (some p))
        (append_assoc ws (delete k ∷ []) (map delete ks))
        (delete_each-pending ks (d.delete k s).1 view (ws ++ delete k ∷ [])
          (store.delete_open k m).1)

  pub del_last_block_event_hash-gone :
      (ks : List Bytes) (s : S) (view : View)
      → ((s : S) (view : View) (ws : List Write)
          → Models s view (some ws)
          → (d.commit_tx s).0 ≡ none)
      → Models s view none
      → ((del_last_block_event_hash d ks s).0 ≡ [])
        × Models
            (del_last_block_event_hash d ks s).1
            (λ j. after_writes (map delete ks) j (view j))
            none
  unfolding del_last_block_event_hash
  del_last_block_event_hash-gone ks s view commits m =
      let begun = store.begin_closed m in
      let pending = delete_each-pending ks (d.begin_tx s).1 view [] begun.1 in
      let committed = commits (delete_each d ks (d.begin_tx s).1) view (map delete ks) pending in
      rw (begun.0, committed) (refl, store.commit_done pending committed)
