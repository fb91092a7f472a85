-- ===== src/Delete/Works.antt =====
-- The parts of libmport/delete_primative.c on a system where every call succeeds.
use mport.Base.{
  Bool, true, false, ◌||◌, ◌==◌, Bool-cases, ◌≡◌, refl, inl, inr, Option, none, some, List, [], ◌∷◌,
  ◌++◌, All, arith,
}
use mport.Base.Text.{Bytes, codes, str_eq}
use mport.Db.{prepared, ok, all_rows}
use mport.Plist.Command.{
  AssetType, unexec, preunexec, postunexec, kld, ldconfig, ldconfig_linux, glib_schemas, info,
  desktop_file_utils, sample, sample_owner_mode,
}
use mport.Preconditions.{filter_rows}
use mport.Store.{
  AssetRow, Host, Package, Trace, Act, nothing, emit, attempt, or_tell, told, removed_dir,
  cannot_remove_dir, ran, changed_dir, ran_exec,
}
use mport.Store.Works.{
  Healthy, Works, ◌with◌, nothing-Works, attempt-Works, or_tell-Works, if-Works, if_ok, bind_ok,
}
use mport.Delete.{type_code, of_types, in_buffer, asset_path}
use mport.Delete.Commands.{
  each_row, in_prefix, asset_exec, unldconfig_asset, run_tool, remove_kld, special_asset,
}

-- Commands and kernel modules have their text, and samples their checksum.
pub record IsComplete (r : AssetRow) : Type 0 where
  pub text :
      of_types (unexec ∷ preunexec ∷ postunexec ∷ kld ∷ []) r.type ≡ true
      → (s : Bytes) × (r.text ≡ some s)
  pub checksum :
      of_types (sample ∷ sample_owner_mode ∷ []) r.type ≡ true → (s : Bytes) × (r.checksum ≡ some s)

pub each_row-Works :
    {A : Type 0} (f : A → Act Trace) (xs : List A)
    → All (λ a. Works (f a)) xs
    → Works (each_row f (all_rows xs))
unfolding each_row
each_row-Works f [] h = record { works = λ t. (t, refl) }
each_row-Works f (x ∷ xs) (hx, hs) = record {
  works = λ t.
      let (u, e) = hx.works t in
      let (v, d) = (each_row-Works f xs hs).works u in
      (v, cc (bind_ok (f x t) (each_row f (all_rows xs)) u e, d));
}

pub All-filter :
    {A : Type 0} (P Q : A → Type 0) (p : A → Bool) (xs : List A)
    → ((x : A) → p x ≡ true → P x → Q x)
    → All P xs
    → All Q (filter_rows p xs)
All-filter P Q p [] f h = tt
All-filter P Q p (x ∷ xs) f (hx, hs) = elim (Bool-cases (p x)) [
  | inl e ↦ rw e (f x e hx, All-filter P Q p xs f hs)
  | inr e ↦ rw e (All-filter P Q p xs f hs)
]

pub asset_exec-Works :
    (h : Host) (p : Package) (cwd : Bytes) (o : Option Bytes) (s : Bytes)
    → Healthy h
    → o ≡ some s
    → Works (asset_exec h p cwd o)
unfolding asset_exec
asset_exec-Works h p cwd none s f e = absurd (ground arith)
asset_exec-Works h p cwd (some text) s f e = record {
  works =
      λ t. (attempt-Works h (ran_exec text cwd (asset_path h.root p.prefix (some text))) f).works t;
}

pub in_prefix-Works :
    {A : Type 0} (h : Host) (p : Package) (f : A → Act Trace) (xs : List A)
    → Healthy h
    → All (λ a. Works (f a)) xs
    → Works (in_prefix h p f (prepared (all_rows xs)))
unfolding in_prefix
in_prefix-Works h p f xs ok_host hs = record {
  works = λ t.
      (attempt-Works h (changed_dir (h.root ++ in_buffer p.prefix)) ok_host
          with each_row-Works f xs hs).works
        t;
}

run_tool-Works : (h : Host) (tool command : Bytes) → Healthy h → Works (run_tool h tool command)
unfolding run_tool
run_tool-Works h tool command f = record {
  works = λ t.
      if_ok (h.file_exists t.events tool) (attempt h (ran command) t) (ok t)
        ((attempt-Works h (ran command) f).works t) (t, refl);
}

remove_kld-Works :
    (h : Host) (o : Option Bytes) (s : Bytes) → Healthy h → o ≡ some s → Works (remove_kld h o)
unfolding remove_kld
remove_kld-Works h none s f e = absurd (ground arith)
remove_kld-Works h (some d) s f e = record {
  works = λ t.
      (attempt-Works h (ran (codes "/usr/sbin/kldxref " ++ d)) f
          with if-Works (str_eq (codes "/boot/modules") d) nothing
              (or_tell h (removed_dir d true) (emit (told cannot_remove_dir d)))
              (λ _. nothing-Works)
              (λ _. or_tell-Works h (removed_dir d true) (emit (told cannot_remove_dir d)) f)).works
        t;
}

pub unldconfig_asset-Works : (h : Host) (r : AssetRow) → Healthy h → Works (unldconfig_asset h r)
unfolding unldconfig_asset
unldconfig_asset-Works h r f =
    if-Works (of_types (ldconfig ∷ []) r.type) _ _ (λ _. attempt-Works h _ f)
      (λ _.
        if-Works (of_types (ldconfig_linux ∷ []) r.type) _ _ (λ _. attempt-Works h _ f)
          (λ _. nothing-Works))

pub first_of : (a b c d : Bool) → (a || false) ≡ true → (a || (b || (c || (d || false)))) ≡ true
first_of a b c d e = ground arith

pub second_of : (a b c d : Bool) → (b || false) ≡ true → (a || (b || (c || (d || false)))) ≡ true
second_of a b c d e = ground arith

pub third_of : (a b c d : Bool) → (c || false) ≡ true → (a || (b || (c || (d || false)))) ≡ true
third_of a b c d e = ground arith

fourth_of : (a b c d : Bool) → (d || false) ≡ true → (a || (b || (c || (d || false)))) ≡ true
fourth_of a b c d e = ground arith

-- the tests of a type against those that need a text
unfoldable pub is : AssetType → AssetType → Bool
is t u = type_code t == type_code u

pub special_asset-Works :
    (h : Host) (p : Package) (r : AssetRow) → Healthy h → IsComplete r → Works (special_asset h p r)
unfolding special_asset of_types is
special_asset-Works h p r f c =
    if-Works (of_types (glib_schemas ∷ []) r.type) _ _ (λ _. run_tool-Works h _ _ f)
      (λ _.
        if-Works (of_types (info ∷ []) r.type) _ _ (λ _. run_tool-Works h _ _ f)
          (λ _.
            if-Works (of_types (kld ∷ []) r.type) _ _
              (λ e.
                let (s, d) = c.text (
                  fourth_of (is r.type unexec) (is r.type preunexec) (is r.type postunexec)
                    (is r.type kld) e) in
                remove_kld-Works h r.text s f d)
              (λ _.
                if-Works (of_types (desktop_file_utils ∷ []) r.type) _ _
                  (λ _. run_tool-Works h _ _ f) (λ _. nothing-Works))))
