-- ===== src/Index/Load/Attached.antt =====
-- The flag MPORT_INST_HAVE_INDEX and SQLite's list of databases, after libmport/index.c has loaded or
-- refreshed the index.
use mathlib.Core.Path.{subst, sym, ◌∙◌}
use mport.Base.{
  Bool, true, false, not, ◌&&◌, ◌≡◌, refl, inl, inr, Bool-cases, arith, if◌then◌else◌, Option, none,
  some, List,
}
use mport.Db.{Result, ok, err, undefined}
use mport.Settings.{SettingRow}
use mport.Index.Load.{
  Outside, IndexState, LoadEnd, load_ok, load_error, load_undefined, and_load, attach_index_db,
  detach_index_db, index_is_recentish, settings_set, update_last_checked, fetched, reattach,
  index_get, get_unless_checked, refresh, attach_fetched, auto_off, index_load,
}

-- the flag says whether SQLite has the index
unfoldable pub IsConsistent : IndexState → Type 0
IsConsistent s = s.have_index ≡ s.attached

-- the state is consistent however the call ended, and has the flag `b` where it returned MPORT_OK
unfoldable pub Keeps : Bool → IndexState × LoadEnd → Type 0
Keeps b (s, e) = IsConsistent s × (e ≡ load_ok → s.have_index ≡ b)

-- what follows starts in a consistent state with the flag `b`
then-Keeps :
    (b c : Bool) (r : IndexState × LoadEnd) (k : IndexState → IndexState × LoadEnd)
    → Keeps b r
    → ((s : IndexState) → IsConsistent s → s.have_index ≡ b → Keeps c (k s))
    → Keeps c (and_load r k)
unfolding and_load Keeps
then-Keeps b c (s, load_ok) k (i, f) g = g s i (f refl)
then-Keeps b c (s, load_error) k (i, f) g = (i, λ e. absurd (ground arith))
then-Keeps b c (s, load_undefined) k (i, f) g = (i, λ e. absurd (ground arith))

settings_set-Keeps :
    (s : IndexState) (r : Result (List SettingRow) (List SettingRow))
    → IsConsistent s
    → Keeps s.have_index (settings_set s r)
unfolding settings_set Keeps IsConsistent
settings_set-Keeps s (ok rs) i = (i, λ e. refl)
settings_set-Keeps s (err rs) i = (i, λ e. refl)
settings_set-Keeps s undefined i = (i, λ e. refl)

fetched-Keeps :
    (p : Bool × Bool) (s : IndexState) → IsConsistent s → Keeps s.have_index (fetched p s)
unfolding fetched Keeps IsConsistent
fetched-Keeps (good, exists) s i = (i, λ e. refl)

either-Keeps :
    (b c : Bool) (x y : IndexState × LoadEnd) → Keeps b x → Keeps b y → Keeps b (if c then x else y)
either-Keeps b true x y k l = k
either-Keeps b false x y k l = l

module _ (h : Outside) where
  update-Keeps : (s : IndexState) → IsConsistent s → Keeps s.have_index (update_last_checked h s)
  unfolding update_last_checked
  update-Keeps s i = settings_set-Keeps s _ i

  reattach-Keeps : (s : IndexState) → IsConsistent s → Keeps s.have_index (reattach h s)
  unfolding reattach Keeps IsConsistent and_load detach_index_db attach_index_db
  reattach-Keeps s i = elim (Bool-cases s.have_index) [
    | inl e ↦ elim (Bool-cases h.detach_runs) [
      | inl d ↦ elim (Bool-cases h.attach_runs) [
        | inl a ↦ ground (arith, i)
        | inr a ↦ ground (arith, i)
      ]
      | inr d ↦ ground (arith, i)
    ]
    | inr e ↦ ground (arith, i)
  ]

  with_flag :
      (f : IndexState → IndexState × LoadEnd)
      → ((s : IndexState) → IsConsistent s → Keeps s.have_index (f s))
      → (b : Bool) (s : IndexState) → IsConsistent s
      → s.have_index ≡ b
      → Keeps b (f s)
  with_flag f k b s i e = subst (λ x. Keeps x (f s)) e (k s i)

  -- Where mport_index_get starts in a consistent state, it ends in one, and with the same flag where
  -- it returns MPORT_OK.
  pub index_get-Keeps : (s : IndexState) → IsConsistent s → Keeps s.have_index (index_get h s)
  unfolding index_get
  index_get-Keeps s i = then-Keeps s.have_index s.have_index _ _ (fetched-Keeps _ s i) (λ t j e.
      then-Keeps s.have_index s.have_index (reattach h t) (update_last_checked h)
        (with_flag (reattach h) reattach-Keeps s.have_index t j e)
        (with_flag (update_last_checked h) update-Keeps s.have_index))

  attach-Keeps :
      (s : IndexState) (k : IndexState → IndexState × LoadEnd)
      → IsConsistent s
      → ((u : IndexState) → IsConsistent u → u.have_index ≡ true → Keeps true (k u))
      → Keeps true (and_load (attach_index_db h s) (λ t. k (record t { have_index = true })))
  unfolding attach_index_db IsConsistent Keeps and_load
  attach-Keeps s k i f = elim (Bool-cases s.attached) [
    | inl e ↦ rw e (rw (i, e) refl, λ x. absurd (ground arith))
    | inr e ↦ elim (Bool-cases h.attach_runs) [
      | inl a ↦ rw (e, a) (f (record s { have_index = true; attached = true }) refl refl)
      | inr a ↦ rw (e, a) (rw (i, e) refl, λ x. absurd (ground arith))
    ]
  ]

  here : (s : IndexState) → IsConsistent s → Keeps s.have_index (s, load_ok)
  unfolding Keeps
  here s i = (i, λ e. refl)

  unless_checked-Keeps :
      (s : IndexState) (o : Option Bool)
      → IsConsistent s
      → Keeps s.have_index (get_unless_checked h s o)
  unfolding get_unless_checked Keeps
  unless_checked-Keeps s none i = (i, λ e. refl)
  unless_checked-Keeps s (some true) i = (i, λ e. refl)
  unless_checked-Keeps s (some false) i = index_get-Keeps s i

  refresh-Keeps : (b : Bool) (s : IndexState) → IsConsistent s → Keeps s.have_index (refresh h b s)
  unfolding refresh
  refresh-Keeps b s i =
      either-Keeps s.have_index (not (index_is_recentish h h.birthtime) && not b && h.writable) _ _
        (unless_checked-Keeps s _ i) (here s i)

  attach_fetched-Keeps : (s : IndexState) → IsConsistent s → Keeps true (attach_fetched h s)
  unfolding attach_fetched Keeps
  attach_fetched-Keeps s i =
      either-Keeps true s.file _ _
        (attach-Keeps s (update_last_checked h) i
          (λ u j e. with_flag (update_last_checked h) update-Keeps true u j e))
        (i, λ e. absurd (ground arith))

  index_load-flag : (s : IndexState) → IsConsistent s → Keeps true (index_load h s)
  unfolding index_load
  index_load-flag s i =
      either-Keeps true s.file _ _
        (attach-Keeps s (refresh h (auto_off h s)) i
          (λ u j e. with_flag (refresh h (auto_off h s)) (refresh-Keeps (auto_off h s)) true u j e))
        (then-Keeps s.have_index true _ (attach_fetched h) (fetched-Keeps _ s i)
          (λ t j e. attach_fetched-Keeps t j))

-- Where mport_index_load starts with the flag set exactly where SQLite has the index, it ends so,
-- however it ends, and where it returns MPORT_OK, the flag is set, and SQLite has the index.
pub index_load-Keeps :
    (h : Outside) (s : IndexState)
    → IsConsistent s
    → IsConsistent (index_load h s).0
      × ((index_load h s).1 ≡ load_ok
          → ((index_load h s).0.have_index ≡ true) × ((index_load h s).0.attached ≡ true))
unfolding Keeps IsConsistent
index_load-Keeps h s i = let (j, f) = index_load-flag h s i in (j, λ e. (f e, sym j ∙ f e))
