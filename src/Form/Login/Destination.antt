-- ===== src/Form/Login/Destination.antt =====
-- Where a login leads: frontend/src/features/login-model.ts.
use Prim.Native.String
use text.Mathlib.Text.{starts_with}
use text.Mathlib.TextEquality.{starts_with_iff}
use stechbaza_iot.Prelude.{
  Bool, Bool-cases, Each, List, Option, String, [], any, arith, eq_iff, false, if-intro,
  if◌then◌else◌, inl, inr, none, not, refl, some, str_eq, true, ℕ, ◌==◌, ◌||◌, ◌∷◌, ◌≡◌, ◌≢◌, ◌⊎◌,
}
use stechbaza_iot.Form.Login.{
  allowed_return_paths, default_destination, destination, is_allowed_path, is_path, is_under,
  safe_login_return_to, site_origin,
}
use stechbaza_iot.Host.{Host, Url}
use stechbaza_iot.Js.Text.{codes}

-- The path is that of one of the pages, or goes on after it with a slash.
abbrev pub IsWithin : String → List String → Type 0
IsWithin pathname [] = ⊥
IsWithin pathname (page ∷ pages) =
    (pathname ≡ page)
    ⊎ ((rest : String) × (String.◌++◌ (String.◌++◌ page "/") rest ≡ pathname))
    ⊎ IsWithin pathname pages

-- A text that begins with one slash, and has no backslash
pub record IsSitePath (value : String) : Type 0 where
  pub rest : String
  pub from_root : String.◌++◌ "/" rest ≡ value
  pub one_slash : (other : String) → String.◌++◌ "//" other ≢ value
  pub no_backslash : Each (λ c. c ≢ 0x5c) (codes value)

never_both : (b : Bool) → b ≡ true → b ≡ false → ⊥
never_both b yes_it_is no_it_is = cc

any-IsWithin :
    (pathname : String) (pages : List String)
    → any (is_under pathname) pages ≡ true
    → IsWithin pathname pages
any-IsWithin pathname [] e = cc
any-IsWithin pathname (page ∷ pages) e = elim (Bool-cases (str_eq pathname page)) [
  | inl same ↦ inl ((eq_iff pathname page).0 same)
  | inr differs ↦ elim (Bool-cases (starts_with pathname (String.◌++◌ page "/"))) [
    | inl below ↦ inr (inl ((starts_with_iff pathname (String.◌++◌ page "/")).0 below))
    | inr elsewhere ↦ inr (inr (any-IsWithin pathname pages (ground arith)))
  ]
]

any-backslash : (l : List ℕ) → any (λ c. c == 0x5c) l ≡ false → Each (λ c. c ≢ 0x5c) l
any-backslash [] e = tt
any-backslash (c ∷ l) e = (ground arith, any-backslash l (ground arith))

is_path-IsSitePath : (value : String) → is_path value ≡ true → IsSitePath value
is_path-IsSitePath value e =
    let double = starts_with value "//" in
    let rooted : starts_with value "/" ≡ true = ground arith in
    let single : double ≡ false = ground arith in
    let clean : any (λ c. c == 0x5c) (codes value) ≡ false = ground arith in
    let (rest, from_root) = (starts_with_iff value "/").0 rooted in
    record {
      rest = rest;
      from_root = from_root;
      one_slash =
          λ other same. never_both double ((starts_with_iff value "//").1 (other, same)) single;
      no_backslash = any-backslash (codes value) clean;
    }

module _ ⦃h : Host⦄ (staff : Bool) where
  -- The value names, on this site, one of the allowed pages or a page below one.
  pub record LeadsTo (value route : String) : Type 0 where
    pub url : Url
    pub given : IsSitePath value
    pub resolved : h.new_url value "http://kerumo.local" ≡ some url
    pub same_site : url.origin ≡ "http://kerumo.local"
    pub not_login : url.pathname ≢ "/login"
    pub allowed : IsWithin url.pathname (
        "/devices" ∷ "/organizations" ∷ "/alarms" ∷ "/notifications" ∷ "/ui-kit" ∷ "/connect"
        ∷ "/account" ∷ "/factory" ∷ "/operations" ∷ "/invite" ∷ [])
    pub whole : route ≡ String.◌++◌ url.pathname (String.◌++◌ url.search url.hash)

  destination-LeadsTo :
      (value : String) (u : Option Url)
      → is_path value ≡ true
      → h.new_url value site_origin ≡ u
      → (destination staff u ≡ default_destination staff) ⊎ LeadsTo value (destination staff u)
  unfolding destination
  destination-LeadsTo value none given e = inl refl
  destination-LeadsTo value (some url) given e =
      if-intro (λ route. (route ≡ default_destination staff) ⊎ LeadsTo value route)
        (not (str_eq url.origin site_origin) || str_eq url.pathname "/login") (λ away. inl refl)
        (λ stays.
          if-intro (λ route. (route ≡ default_destination staff) ⊎ LeadsTo value route)
            (is_allowed_path url.pathname)
            (λ allowed. inr (record {
              url = url;
              given = is_path-IsSitePath value given;
              resolved = e;
              same_site = (eq_iff url.origin site_origin).0 (ground arith);
              not_login = λ same.
                  never_both (str_eq url.pathname "/login") ((eq_iff url.pathname "/login").1 same)
                    (ground arith);
              allowed = any-IsWithin url.pathname allowed_return_paths allowed;
              whole = refl;
            }))
            (λ other. inl refl))

  -- A login leads to the default page, or to the page that the value names. It does the latter
  -- only where the value begins with one slash and has no backslash, and its URL is of this
  -- site, not of the login itself, and of one of the ten allowed pages or below one.
  pub safe_login_return_to-LeadsTo :
      (value : String)
      → (safe_login_return_to staff (some value) ≡ (if staff then "/operations" else "/devices"))
        ⊎ LeadsTo value (safe_login_return_to staff (some value))
  unfolding safe_login_return_to
  safe_login_return_to-LeadsTo value =
      if-intro
        (λ route. (route ≡ (if staff then "/operations" else "/devices")) ⊎ LeadsTo value route)
        (is_path value)
        (λ given. destination-LeadsTo value (h.new_url value site_origin) given refl)
        (λ other. inl refl)
