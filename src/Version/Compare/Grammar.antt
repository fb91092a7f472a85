-- ===== src/Version/Compare/Grammar.antt =====
-- `parse_version` of libmport/version_cmp.c takes the three fields of a version apart.
use mport.Base.{
  ℕ, suc, ◌≡◌, ◌≢◌, sym, some, ◌∷◌, ◌++◌, length, All, All-append, All-imp, Lacks, append_assoc,
  set-append, drop_behind, set, drop, ◌∙◌, arith,
}
use mport.Base.Text.{
  Bytes, rindex, rindex-append, rindex-Lacks, cstr-append, cstr-Lacks, strtol_int,
}
use mport.Version.Compare.{parse_version, cut_at, number_at}

-- a byte that no field of a version may hold
abbrev IsPlain : ℕ → Type 0
IsPlain c = (c ≢ 0) × (c ≢ b'_') × (c ≢ b',') × (c ≢ b'<') × (c ≢ b'>')

abbrev pub IsField : Bytes → Type 0
IsField = All IsPlain

module _ (v r e : Bytes) (hv : IsField v) (hr : IsField r) (he : IsField e) where
  abbrev full : Bytes
  full = v ++ b'_' ∷ (r ++ b',' ∷ e)

  lacks : (mk : ℕ) → ((c : ℕ) → IsPlain c → c ≢ mk) → b'_' ≢ mk → b',' ≢ mk → Lacks mk full
  lacks mk f u k =
      All-append (λ c. c ≢ mk) v (b'_' ∷ (r ++ b',' ∷ e)) (All-imp IsPlain _ v f hv)
        (
          u,
          All-append (λ c. c ≢ mk) r (b',' ∷ e) (All-imp IsPlain _ r f hr)
              (k, All-imp IsPlain _ e f he),
        )

  underscore_at : rindex full b'_' ≡ some (length v)
  underscore_at = rindex-append v b'_' (r ++ b',' ∷ e) (
      All-append (λ c. c ≢ b'_') r (b',' ∷ e) (All-imp IsPlain _ r (λ c h. h.1) hr)
        (omega arith, All-imp IsPlain _ e (λ c h. h.1) he))

  split : full ≡ (v ++ b'_' ∷ r) ++ b',' ∷ e
  split = sym (append_assoc v (b'_' ∷ r) (b',' ∷ e))

  comma_at : rindex full b',' ≡ some (length (v ++ b'_' ∷ r))
  comma_at = rw split (rindex-append (v ++ b'_' ∷ r) b',' e (All-imp IsPlain _ e (λ c h. h.2) he))

  cut_comma : set full (length (v ++ b'_' ∷ r)) 0 ≡ v ++ b'_' ∷ (r ++ 0 ∷ e)
  cut_comma = rw split (set-append (v ++ b'_' ∷ r) b',' e 0 ∙ append_assoc v (b'_' ∷ r) (0 ∷ e))

  behind_comma : drop (suc (length (v ++ b'_' ∷ r))) (v ++ b'_' ∷ (r ++ 0 ∷ e)) ≡ e
  behind_comma = rw (← append_assoc v (b'_' ∷ r) (0 ∷ e)) (drop_behind (v ++ b'_' ∷ r) 0 e)

  -- A version `v_r,e` is read as the version `v`, the revision `r` and the epoch `e`, where no
  -- field holds NUL, `_`, `,`, `<` or `>`.
  pub parse_version-full :
      parse_version full ≡ record { version = v; revision = strtol_int r; epoch = strtol_int e }
  unfolding parse_version cut_at number_at
  parse_version-full =
      rw
        (
          underscore_at,
          comma_at,
          rindex-Lacks full b'<' (lacks b'<' (λ c h. h.3) (omega arith) (omega arith)),
          rindex-Lacks full b'>' (lacks b'>' (λ c h. h.4) (omega arith) (omega arith)),
          cut_comma,
          behind_comma,
          set-append v b'_' (r ++ 0 ∷ e) 0,
          drop_behind v 0 (r ++ 0 ∷ e),
        )
        (rw (
          cstr-append v (r ++ 0 ∷ e) (All-imp IsPlain _ v (λ c h. h.0) hv),
          cstr-append r e (All-imp IsPlain _ r (λ c h. h.0) hr),
          cstr-Lacks e (All-imp IsPlain _ e (λ c h. h.0) he),
        ))
