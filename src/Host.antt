-- ===== src/Host.antt =====
-- What the web client takes from its host and from its configuration: conversions of the language
-- whose tables or formats depend on the host, the URL class, and frontend/src/lib/api/config.ts's
-- `apiConfig`, which is computed once, when the module loads. Functions take it as an instance.
pub mod Sample
pub mod Conversion
use stechbaza_iot.Prelude.{Bool, Option, String, ℕ}
use stechbaza_iot.Js.Number.{Number}
use stechbaza_iot.Prelude.Int.{ℤ}

-- A value of the class URL.
pub record Url : Type 0 where
  pub href : String
  pub origin : String
  pub protocol : String
  pub username : String
  pub password : String
  pub pathname : String
  pub search : String
  pub hash : String

-- frontend/src/lib/api/config.ts: `apiConfig`
pub record ApiConfig : Type 0 where
  pub base_url : String
  pub timeout_ms : ℕ

pub record Host : Type 0 where
  -- text.toLowerCase()
  pub lower : String → String
  -- Number(text)
  pub to_number : String → Number
  -- String(number)
  pub number_text : Number → String
  -- Date.parse(text); `none` is NaN
  pub date_parse : String → Option ℤ
  -- new URL(text, base); `none` is a TypeError
  pub new_url : String → String → Option Url
  -- headers.set(name, value) of the class Headers: whether it takes them, or throws a TypeError
  pub is_header : String → String → Bool
  -- encodeURIComponent(text)
  pub encode : String → String
  pub config : ApiConfig
