-- ===== src/Wrf/Domains/Prefixes.antt =====
-- The prefixes of WRF's file names (models/wrf/wrf_control.cpp).
use cpdn_control.Prelude.{
  zero, suc, ◌≡◌, refl, sym, ◌∙◌, ◌⊎◌, inl, inr, true, false, ◌&&◌, Option, none, some, List, [],
  ◌∷◌, ℤ, pos, negsuc, length, Bool-cases, Option-cases, arith,
}
use cpdn_control.Text.{Bytes, codes}
use cpdn_control.Text.Number.{print_padded, digits}
use cpdn_control.Wrf.Domains.{
  WrfControl, is_allowed, build_wrf_domain_prefixes, max_dom_line, validated, or_validated,
  max_domains_in, read_validated_max_domains, has_all_prefixes, with_domains,
  ensure_domain_prefixes_initialized,
}

-- The number of domains is one that is supported, and the prefixes are those of that many domains.
pub record IsReady (c : WrfControl) : Type 0 where
  pub allowed : is_allowed c.max_domains ≡ true
  pub output_ready : c.output_prefixes ≡ build_wrf_domain_prefixes (codes "wrfout") c.max_domains
  pub restart_ready : c.restart_prefixes ≡ build_wrf_domain_prefixes (codes "wrfrst") c.max_domains

-- The control does not look initialized, or it is.
abbrev pub IsConsistent : WrfControl → Type 0
IsConsistent c = ((is_allowed c.max_domains && has_all_prefixes c) ≡ false) ⊎ IsReady c

validated-is_allowed :
    (value : Bytes) (domains : ℤ) → validated value ≡ some domains → is_allowed domains ≡ true
unfolding validated
validated-is_allowed value domains h = ground (arith, h)

max_domains_in-is_allowed :
    (lines : List Bytes) (domains : ℤ)
    → max_domains_in lines ≡ some domains
    → is_allowed domains ≡ true
unfolding max_domains_in
max_domains_in-is_allowed [] domains h = ground arith
max_domains_in-is_allowed (line ∷ lines) domains h =
    chosen (max_domains_in-is_allowed lines domains) (max_dom_line line) h
  where
    chosen :
        (max_domains_in lines ≡ some domains → is_allowed domains ≡ true)
        → (r : Option Bytes) → or_validated (max_domains_in lines) r ≡ some domains
        → is_allowed domains ≡ true
    chosen later none e = later e
    chosen later (some value) e = validated-is_allowed value domains e

read_validated-is_allowed :
    (namelist : Option (List Bytes)) (domains : ℤ)
    → read_validated_max_domains namelist ≡ some domains
    → is_allowed domains ≡ true
unfolding read_validated_max_domains
read_validated-is_allowed none domains h = ground arith
read_validated-is_allowed (some lines) domains h = max_domains_in-is_allowed lines domains h

with_domains-IsReady :
    (domains : ℤ) (c : WrfControl)
    → is_allowed domains ≡ true
    → IsReady (with_domains (some domains) c).1
with_domains-IsReady domains c h = record { allowed = h; output_ready = refl; restart_ready = refl }

-- Whatever the namelist holds, a control that was consistent stays consistent, and if it is reported as
-- initialized then the number of domains is supported and the prefixes are those of its domains.
pub ensure_domain_prefixes_initialized-IsReady :
    (namelist : Option (List Bytes)) (c : WrfControl)
    → IsConsistent c
    → let r = ensure_domain_prefixes_initialized namelist c in
      IsConsistent r.1 × ((r.0 ≡ false) ⊎ IsReady r.1)
unfolding ensure_domain_prefixes_initialized
ensure_domain_prefixes_initialized-IsReady namelist c h =
    elim (Bool-cases (is_allowed c.max_domains && has_all_prefixes c)) [
      | inl old ↦ rw old (h, elim h [ inl e ↦ inl (sym old ∙ e) | inr r ↦ inr r ])
      | inr new ↦ rw new (elim (Option-cases (read_validated_max_domains namelist)) [
        | inl e ↦ rw e (h, inl refl)
        | inr (domains, e) ↦
            let r : IsReady (with_domains (some domains) c).1 =
              with_domains-IsReady domains c (read_validated-is_allowed namelist domains e) in
            rw e (inr r, inr r)
      ])
    ]

-- With a supported number of domains every prefix is built.
pub length-build_wrf_domain_prefixes :
    (domains : ℤ)
    → is_allowed domains ≡ true
    → (pos (length (build_wrf_domain_prefixes (codes "wrfout") domains)) ≡ domains)
      × (pos (length (build_wrf_domain_prefixes (codes "wrfrst") domains)) ≡ domains)
unfolding build_wrf_domain_prefixes print_padded digits
length-build_wrf_domain_prefixes (negsuc n) h = ground arith
length-build_wrf_domain_prefixes (pos zero) h = ground arith
length-build_wrf_domain_prefixes (pos (suc zero)) h = (refl, refl)
length-build_wrf_domain_prefixes (pos (suc (suc zero))) h = (refl, refl)
length-build_wrf_domain_prefixes (pos (suc (suc (suc zero)))) h = (refl, refl)
length-build_wrf_domain_prefixes (pos (suc (suc (suc (suc n))))) h = absurd (ground (arith, h))
