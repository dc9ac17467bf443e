-- ===== src/Api/Config/Checked.antt =====
-- The settings that frontend/src/lib/api/config.ts lets through.
use Prim.Native.String
use Prim.Native.String.append
use stechbaza_iot.Prelude.{
  Bool, Each, Option, String, ap, code, subst, ◌==◌, arith, if-intro, or_default, ◌∙◌, eq_iff,
  false, if-cases, if◌then◌else◌, inl, inr, none, not, refl, some, str_eq, sym, true, ℕ, ◌&&◌, ◌||◌,
  ◌≡◌, ◌≤◌, ◌⊎◌,
}
use stechbaza_iot.Api.Config.{
  normalize_api_base_url, normalize_timeout, origin_of_url, strip_slashes, timeout_failure,
  timeout_of, trimmed_or,
}
use stechbaza_iot.Api.Errors.{Failure, Result, err, ok, ok-injective}
use stechbaza_iot.Host.{Host, Url}
use stechbaza_iot.Js.Text.{codes, is_empty, trim}
use stechbaza_iot.Prelude.Int.{pos, ℤ}

-- What is configured: a text, but for the spaces around it, or the default where there is none.
abbrev pub IsConfigured : Option String → String → Type 0
IsConfigured value text =
    ((v : String) × (value ≡ some v) × (trim v ≡ text) × (is_empty text ≡ false))
    ⊎ (((v : String) → value ≡ some v → is_empty (trim v) ≡ true)
        × (text ≡ "http://127.0.0.1:8001"))

-- The origin of an http or https URL without credentials, query or fragment, whose path is empty or
-- /api/v1, but for slashes at its end.
pub record IsBackend (parse : String → Option Url) (value : Option String) (origin : String)
    : Type 0 where
  pub text : String
  pub configured : IsConfigured value text
  pub url : Url
  pub parsed : parse text ≡ some url
  pub protocol : (url.protocol ≡ "http:") ⊎ (url.protocol ≡ "https:")
  pub no_username : is_empty url.username ≡ true
  pub no_password : is_empty url.password ≡ true
  pub no_search : is_empty url.search ≡ true
  pub no_hash : is_empty url.hash ≡ true
  -- The path before its last slashes
  pub path : String
  pub slashes : String
  pub pathname : String.◌++◌ path slashes ≡ url.pathname
  pub only_slashes : Each (λ c. c ≡ 0x2f) (codes slashes)
  pub short : (path ≡ "") ⊎ (path ≡ "/api/v1")
  pub same : origin ≡ url.origin

empty_text : (s : String) → is_empty s ≡ true → s ≡ ""
empty_text String.[] e = refl
empty_text (String.◌∷◌ c s) e = cc

-- The text is the one before its last slashes, and slashes.
abbrev IsSplit : String → String → Type 0
IsSplit s before =
    (slashes : String) × (String.◌++◌ before slashes ≡ s) × Each (λ c. c ≡ 0x2f) (codes slashes)

strip_slashes-IsSplit : (s : String) → IsSplit s (strip_slashes s)
unfolding strip_slashes
strip_slashes-IsSplit String.[] = (String.[], append.nil String.[], tt)
strip_slashes-IsSplit (String.◌∷◌ c s) =
    let (slashes, joined, all_slashes) = strip_slashes-IsSplit s in
    let rest = strip_slashes s in
    if-intro (IsSplit (String.◌∷◌ c s)) (is_empty rest && code c == 0x2f)
      (λ last.
        let same : slashes ≡ s =
          sym (append.nil slashes)
          ∙ sym (ap (λ t. String.◌++◌ t slashes) (empty_text rest (ground arith)))
          ∙ joined in
        (
          String.◌∷◌ c s,
          append.nil (String.◌∷◌ c s),
          (ground arith, subst (λ t. Each (λ d. d ≡ 0x2f) (codes t)) same all_slashes),
        ))
      (λ more. (slashes, append.cons c rest slashes ∙ ap (λ t. String.◌∷◌ c t) joined, all_slashes))

throws :
    {A : Type 0} (b : Bool) (f : Failure) {r : Result A} {x : A}
    → (if b then err f else r) ≡ ok x
    → (b ≡ false) × (r ≡ ok x)
throws true f e = cc
throws false f e = (refl, e)

one_holds : (a b : Bool) → (not a && not b) ≡ false → (a ≡ true) ⊎ (b ≡ true)
one_holds true b h = inl refl
one_holds false true h = inr refl
one_holds false false h = cc

both_hold : (a b : Bool) → (not a || not b) ≡ false → (a ≡ true) × (b ≡ true)
both_hold true true h = (refl, refl)
both_hold true false h = cc
both_hold false b h = cc

text_eq : (s t : String) → str_eq s t ≡ true → s ≡ t
text_eq s t h = (eq_iff s t).0 h

origin_of_url-IsBackend :
    (parse : String → Option Url) (value : Option String) (text : String) (u : Option Url)
    (origin : String)
    → IsConfigured value text
    → parse text ≡ u
    → origin_of_url u ≡ ok origin
    → IsBackend parse value origin
unfolding origin_of_url
origin_of_url-IsBackend parse value text none origin c h e = cc
origin_of_url-IsBackend parse value text (some url) origin c h e =
    let (web, e) =
      throws (not (str_eq url.protocol "http:") && not (str_eq url.protocol "https:")) _ e in
    let (anonymous, e) = throws (not (is_empty url.username) || not (is_empty url.password)) _ e in
    let (pure, e) = throws (not (is_empty url.search) || not (is_empty url.hash)) _ e in
    let (short, e) =
      throws
        (not (is_empty (strip_slashes url.pathname))
          && not (str_eq (strip_slashes url.pathname) "/api/v1"))
        _ e in
    let (user, secret) = both_hold (is_empty url.username) (is_empty url.password) anonymous in
    let (no_search, no_hash) = both_hold (is_empty url.search) (is_empty url.hash) pure in
    record {
      text = text;
      configured = c;
      url = url;
      parsed = h;
      protocol = elim (one_holds (str_eq url.protocol "http:") (str_eq url.protocol "https:") web) [
        | inl p ↦ inl (text_eq url.protocol "http:" p)
        | inr p ↦ inr (text_eq url.protocol "https:" p)
      ];
      no_username = user;
      no_password = secret;
      no_search = no_search;
      no_hash = no_hash;
      path = strip_slashes url.pathname;
      slashes = (strip_slashes-IsSplit url.pathname).0;
      pathname = (strip_slashes-IsSplit url.pathname).1;
      only_slashes = (strip_slashes-IsSplit url.pathname).2;
      short =
          elim (one_holds (is_empty (strip_slashes url.pathname))
            (str_eq (strip_slashes url.pathname) "/api/v1") short) [
              | inl p ↦ inl (empty_text (strip_slashes url.pathname) p)
              | inr p ↦ inr (text_eq (strip_slashes url.pathname) "/api/v1" p)
            ];
      same = sym (ok-injective e);
    }

trimmed_or-IsConfigured :
    (value : Option String) → IsConfigured value (trimmed_or value "http://127.0.0.1:8001")
unfolding trimmed_or
trimmed_or-IsConfigured none = inr (λ v e. cc, refl)
trimmed_or-IsConfigured (some v) =
    if-intro (IsConfigured (some v)) (is_empty (trim v))
      (λ blank. inr (λ w e. ap (λ o. is_empty (trim (or_default o v))) (sym e) ∙ blank, refl))
      (λ full. inl (v, refl, refl, full))

-- The base URL that is configured, or http://127.0.0.1:8001 where it is missing or blank, is
-- accepted only as the origin of a backend: http or https, no credentials, query or fragment, and
-- no path but /api/v1, with any slashes at its end.
pub normalize_api_base_url-IsBackend :
    (parse : String → Option Url) (value : Option String) (origin : String)
    → normalize_api_base_url parse value ≡ ok origin
    → IsBackend parse value origin
unfolding normalize_api_base_url
normalize_api_base_url-IsBackend parse value origin e =
    origin_of_url-IsBackend parse value (trimmed_or value "http://127.0.0.1:8001") _ origin
      (trimmed_or-IsConfigured value) refl e

timeout_of-range : (o : Option ℤ) (n : ℕ) → timeout_of o ≡ ok n → (1000 ≤ n) × (n ≤ 60000)
unfolding timeout_of timeout_failure
timeout_of-range (some (pos m)) n e = ground arith
timeout_of-range o n e = cc

module _ ⦃h : Host⦄ where
  -- A timeout that is accepted lasts for one second to one minute.
  pub normalize_timeout-range :
      (value : Option String) (n : ℕ) → normalize_timeout value ≡ ok n → (1000 ≤ n) × (n ≤ 60000)
  unfolding normalize_timeout
  normalize_timeout-range none n e = ground arith
  normalize_timeout-range (some value) n e = elim (if-cases (is_empty (trim value)) e) [
    | inl e ↦ ground arith
    | inr e ↦ timeout_of-range _ n e
  ]
