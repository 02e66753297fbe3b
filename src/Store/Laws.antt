-- ===== src/Store/Laws.antt =====
-- What the clients in core/ rely on of a `Database`: it behaves as a finite map with at most one
-- open transaction. `Models s view pending` says that the reads of the state `s` are `view`, and
-- that `pending` are the writes of the open transaction, `none` where none is open.
use plasma.Bytes.{Bytes}
use plasma.Prelude.{◌≡◌, ◌≢◌, Bool, true, false, Option, none, some, List, [], ◌∷◌, ◌++◌}
use plasma.Store.{Database, Write, put, delete, after_write, after_writes}

abbrev pub View : Type 0
View = Bytes → Option Bytes

abbrev pub is_some : Option Bytes → Bool
is_some none = false
is_some (some v) = true

module _ {S : Type 0} (d : Database S) where
  pub record IsStore (Models : S → View → Option (List Write) → Type 0) : Type 0 where
    pub reads :
        {s : S} {view : View} {p : Option (List Write)}
        → Models s view p
        → (j : Bytes) → d.get j s ≡ view j
    pub tests :
        {s : S} {view : View} {p : Option (List Write)}
        → Models s view p
        → (j : Bytes) → d.has j s ≡ some (is_some (view j))
    -- outside a transaction a write takes effect at once, unless it returns an error
    pub put_closed :
        {s : S} {view : View} (k v : Bytes)
        → Models s view none
        → (d.put k v s).0 ≡ none
        → Models (d.put k v s).1 (λ j. after_write (put k v) j (view j)) none
    pub delete_closed :
        {s : S} {view : View} (k : Bytes)
        → Models s view none
        → (d.delete k s).0 ≡ none
        → Models (d.delete k s).1 (λ j. after_write (delete k) j (view j)) none
    -- inside one it only joins the pending writes, and cannot fail
    pub put_open :
        {s : S} {view : View} {ws : List Write} (k v : Bytes)
        → Models s view (some ws)
        → ((d.put k v s).0 ≡ none) × Models (d.put k v s).1 view (some (ws ++ put k v ∷ []))
    pub delete_open :
        {s : S} {view : View} {ws : List Write} (k : Bytes)
        → Models s view (some ws)
        → ((d.delete k s).0 ≡ none) × Models (d.delete k s).1 view (some (ws ++ delete k ∷ []))
    pub begin_closed :
        {s : S} {view : View}
        → Models s view none
        → ((d.begin_tx s).0 ≡ true) × Models (d.begin_tx s).1 view (some [])
    pub begin_open :
        {s : S} {view : View} {ws : List Write}
        → Models s view (some ws)
        → d.begin_tx s ≡ (false, s)
    pub commit_done :
        {s : S} {view : View} {ws : List Write}
        → Models s view (some ws)
        → (d.commit_tx s).0 ≡ none
        → Models (d.commit_tx s).1 (λ j. after_writes ws j (view j)) none
    pub commit_failed :
        {s : S} {view : View} {ws : List Write}
        → Models s view (some ws)
        → (d.commit_tx s).0 ≢ none
        → Models (d.commit_tx s).1 view (some ws)
    pub rollback_open :
        {s : S} {view : View} {ws : List Write}
        → Models s view (some ws)
        → ((d.rollback_tx s).0 ≡ none) × Models (d.rollback_tx s).1 view none
