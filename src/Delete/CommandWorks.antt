-- ===== src/Delete/CommandWorks.antt =====
-- The commands of libmport/delete_primative.c on a system where every call succeeds.
use mport.Base.{true, ◌==◌, ◌≡◌, some, List, [], ◌∷◌, All, if◌then◌else◌, arith}
use mport.Base.Text.{Bytes, codes}
use mport.Plist.Command.{
  AssetType, unexec, preunexec, postunexec, kld, ldconfig, ldconfig_linux, glib_schemas, info,
  desktop_file_utils,
}
use mport.Preconditions.{filter_rows}
use mport.Store.{
  AssetRow, Host, Tables, Package, Trace, Act, ◌and_then◌, emit, logged, exec_assets,
  ldconfig_assets, special_assets,
}
use mport.Store.Works.{Healthy, Works, ◌with◌, emit-Works, select-Works}
use mport.Delete.{type_code, of_types, in_buffer}
use mport.Delete.Commands.{
  in_prefix, asset_exec, has_type, run_unexec, unldconfig_asset, unldconfig_log, run_unldconfig,
  special_asset, run_special_unexec,
}
use mport.Delete.Works.{
  IsComplete, All-filter, asset_exec-Works, in_prefix-Works, unldconfig_asset-Works, second_of,
  third_of, is, special_asset-Works,
}

-- a row that was selected by its type has that type
typed :
    (n : Bytes) (types : List AssetType) (r : AssetRow)
    → has_type n types r ≡ true
    → of_types types r.type ≡ true
unfolding has_type
typed n types r e = ground arith

unexec_rows :
    (h : Host) (p : Package) (cwd : Bytes) (type : AssetType) (xs : List AssetRow)
    → Healthy h
    → ((r : AssetRow)
        → of_types (type ∷ []) r.type ≡ true
        → IsComplete r
        → (s : Bytes) × (r.text ≡ some s))
    → All IsComplete xs
    → All
        (λ (r : AssetRow). Works (asset_exec h p cwd r.text))
        (filter_rows (has_type p.name (type ∷ [])) xs)
unexec_rows h p cwd type xs f g c =
    All-filter IsComplete (λ (r : AssetRow). Works (asset_exec h p cwd r.text))
      (has_type p.name (type ∷ [])) xs
      (λ r e k.
        let (s, d) = g r (typed p.name (type ∷ []) r e) k in asset_exec-Works h p cwd r.text s f d)
      c

run_unexec-Works :
    (h : Host) (p : Package) (type : AssetType) (ts : Tables)
    → Healthy h
    → ((r : AssetRow)
        → of_types (type ∷ []) r.type ≡ true
        → IsComplete r
        → (s : Bytes) × (r.text ≡ some s))
    → All IsComplete ts.assets
    → Works (run_unexec h p type ts)
unfolding run_unexec
run_unexec-Works h p type ts f g c = record {
  works =
      (select-Works h (exec_assets type) (filter_rows (has_type p.name (type ∷ [])) ts.assets)
        (λ q.
          in_prefix h p (λ (r : AssetRow). asset_exec h p (in_buffer p.prefix) r.text) q
          and_then emit (
              logged (
                some (
                  if type_code type == type_code postunexec
                  then codes "postunexec"
                  else codes "preunexec"))))
        f
        (in_prefix-Works h p (λ (r : AssetRow). asset_exec h p (in_buffer p.prefix) r.text)
            (filter_rows (has_type p.name (type ∷ [])) ts.assets) f
            (unexec_rows h p (in_buffer p.prefix) type ts.assets f g c)
          with emit-Works _)).works;
}

pub run_preunexec-Works :
    (h : Host) (p : Package) (ts : Tables)
    → Healthy h
    → All IsComplete ts.assets
    → Works (run_unexec h p preunexec ts)
unfolding of_types is
run_preunexec-Works h p ts f c =
    run_unexec-Works h p preunexec ts f
      (λ r e k. k.text (
        second_of (is r.type unexec) (is r.type preunexec) (is r.type postunexec) (is r.type kld)
          e))
      c

pub run_postunexec-Works :
    (h : Host) (p : Package) (ts : Tables)
    → Healthy h
    → All IsComplete ts.assets
    → Works (run_unexec h p postunexec ts)
unfolding of_types is
run_postunexec-Works h p ts f c =
    run_unexec-Works h p postunexec ts f
      (λ r e k. k.text (
        third_of (is r.type unexec) (is r.type preunexec) (is r.type postunexec) (is r.type kld) e))
      c

each-Works :
    {A : Type 0} (f : A → Act Trace) (xs : List A)
    → ((a : A) → Works (f a))
    → All (λ a. Works (f a)) xs
each-Works f [] w = tt
each-Works f (x ∷ xs) w = (w x, each-Works f xs w)

pub run_unldconfig-Works :
    (h : Host) (p : Package) (ts : Tables) → Healthy h → Works (run_unldconfig h p ts)
unfolding run_unldconfig
run_unldconfig-Works h p ts f = record {
  works =
      (select-Works h ldconfig_assets
        (filter_rows (has_type p.name (ldconfig ∷ ldconfig_linux ∷ [])) ts.assets)
        (λ q.
          in_prefix h p (unldconfig_asset h) q
          and_then emit (
              logged (
                unldconfig_log
                  (filter_rows (has_type p.name (ldconfig ∷ ldconfig_linux ∷ [])) ts.assets))))
        f
        (in_prefix-Works h p (unldconfig_asset h)
            (filter_rows (has_type p.name (ldconfig ∷ ldconfig_linux ∷ [])) ts.assets) f
            (each-Works (unldconfig_asset h) _ (λ r. unldconfig_asset-Works h r f))
          with emit-Works _)).works;
}

pub run_special_unexec-Works :
    (h : Host) (p : Package) (ts : Tables)
    → Healthy h
    → All IsComplete ts.assets
    → Works (run_special_unexec h p ts)
unfolding run_special_unexec
run_special_unexec-Works h p ts f c = record {
  works =
      (select-Works h special_assets
        (filter_rows (has_type p.name (desktop_file_utils ∷ glib_schemas ∷ info ∷ kld ∷ []))
          ts.assets)
        (in_prefix h p (special_asset h p)) f
        (in_prefix-Works h p (special_asset h p)
          (filter_rows (has_type p.name (desktop_file_utils ∷ glib_schemas ∷ info ∷ kld ∷ []))
            ts.assets)
          f
          (All-filter IsComplete (λ (r : AssetRow). Works (special_asset h p r))
            (has_type p.name (desktop_file_utils ∷ glib_schemas ∷ info ∷ kld ∷ [])) ts.assets
            (λ r e k. special_asset-Works h p r f k) c))).works;
}
