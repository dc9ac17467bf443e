-- ===== src/Api/Client/Failures.antt =====
-- What apiRequest of frontend/src/lib/api/client.ts returns and throws.
use stechbaza_iot.Prelude.{
  List, Option, String, ap, arith, false, if-intro, inl, inr, none, sym, true, ◌⊎◌, refl, some,
  subst, ◌==◌, ◌||◌, ◌∙◌, ◌≡◌, ◌≤◌,
}
use stechbaza_iot.Api.Client.{
  ApiRequestOptions, Exchange, Response, answer_in, api_request, append_query, body_of, caught,
  failure_of, is_ok, judged, not_json, parsed_of, read_response_body, refused, request_headers,
  request_method, says_json,
}
use stechbaza_iot.Api.Config.{build_api_url}
use stechbaza_iot.Api.Errors.{
  >>=-eq-ok, ApiError, Failure, Result, api_error, err, error, ok, ok-injective, ◌>>=◌,
}
use stechbaza_iot.Host.{Host, Url}
use stechbaza_iot.Js.Text.{is_empty}
use stechbaza_iot.Js.Value.{Value, null, str}
use stechbaza_iot.Prelude.Int.{ℤ}

module _ ⦃h : Host⦄ where
  -- What the body says: nothing, JSON, or a text
  abbrev pub HasBody : Response → Value → Type 0
  HasBody r v =
      (((r.status ≡ 204) ⊎ (r.status ≡ 205)) × (v ≡ null))
      ⊎ ((r.text ≡ some "") × (v ≡ null))
      ⊎ ((says_json r ≡ true) × (r.parsed ≡ some v))
      ⊎ ((text : String) × (says_json r ≡ false) × (r.text ≡ some text) × (v ≡ str text))

  -- The backend answered with a status from 200 to 299, and the value is what its body says.
  pub record IsReturned (x : Exchange) (method url : String) (v : Value) : Type 0 where
    pub response : Response
    pub responded : x.response ≡ some response
    pub low : 200 ≤ response.status
    pub high : response.status ≤ 299
    pub body : read_response_body response method url ≡ ok v
    pub told : HasBody response v

  -- An error of this request that the client can show.
  pub record IsThrown (method url : String) (f : Failure) : Type 0 where
    pub error : ApiError
    pub same : f ≡ api_error error
    pub of_method : error.method ≡ method
    pub of_url : error.url ≡ url

  abbrev pub IsAnswer : Exchange → String → String → Result Value → Type 0
  IsAnswer x method url (ok v) = IsReturned x method url v
  IsAnswer x method url (err f) = IsThrown method url f

  -- An ApiError of the try block is of this request.
  abbrev IsOwn : String → String → Result Value → Type 0
  IsOwn method url (err (api_error e)) = (e.method ≡ method) × (e.url ≡ url)
  IsOwn method url r = Unit

  parsed_of-IsOwn :
      (r : Response) (text method url : String) (o : Option Value)
      → IsOwn method url (parsed_of r text method url o)
  unfolding parsed_of not_json
  parsed_of-IsOwn r text method url none = (refl, refl)
  parsed_of-IsOwn r text method url (some v) = tt

  body_of-IsOwn :
      (r : Response) (method url : String) (o : Option String)
      → IsOwn method url (body_of r method url o)
  unfolding body_of
  body_of-IsOwn r method url none = tt
  body_of-IsOwn r method url (some text) =
      if-intro (IsOwn method url) (is_empty text) (λ bare. tt)
        (λ full.
          if-intro (IsOwn method url) (says_json r)
            (λ json_text. parsed_of-IsOwn r text method url r.parsed) (λ other. tt))

  read_response_body-IsOwn :
      (r : Response) (method url : String) → IsOwn method url (read_response_body r method url)
  unfolding read_response_body
  read_response_body-IsOwn r method url =
      if-intro (IsOwn method url) (r.status == 204 || r.status == 205) (λ bare. tt)
        (λ full. body_of-IsOwn r method url r.text)

  judged-IsOwn :
      (r : Response) (method url : String) (now : ℤ) (v : Value)
      → IsOwn method url (judged r method url now v)
  unfolding judged refused
  judged-IsOwn r method url now v =
      if-intro (IsOwn method url) (is_ok r.status) (λ good. tt) (λ bad. (refl, refl))

  bind-IsOwn :
      (method url : String) (m : Result Value) (k : Value → Result Value)
      → IsOwn method url m
      → ((v : Value) → IsOwn method url (k v))
      → IsOwn method url (m >>= k)
  bind-IsOwn method url (ok v) k h g = g v
  bind-IsOwn method url (err e) k h g = h

  answer_in-IsOwn :
      (x : Exchange) (method url : String) (o : Option Response)
      → IsOwn method url (answer_in x method url o)
  unfolding answer_in
  answer_in-IsOwn x method url none = tt
  answer_in-IsOwn x method url (some r) =
      bind-IsOwn method url (read_response_body r method url) _
        (read_response_body-IsOwn r method url) (judged-IsOwn r method url x.now)

  judged-ok :
      (r : Response) (method url : String) (now : ℤ) (payload v : Value)
      → judged r method url now payload ≡ ok v
      → (200 ≤ r.status) × (r.status ≤ 299) × (payload ≡ v)
  unfolding judged is_ok
  judged-ok r method url now payload v e = ground arith

  empty_text : (s : String) → is_empty s ≡ true → s ≡ ""
  empty_text String.[] e = refl
  empty_text (String.◌∷◌ c s) e = cc

  parsed_of-ok :
      (r : Response) (text method url : String) (o : Option Value) (v : Value)
      → parsed_of r text method url o ≡ ok v
      → o ≡ some v
  unfolding parsed_of
  parsed_of-ok r text method url none v e = cc
  parsed_of-ok r text method url (some w) v e = cc

  body_of-HasBody :
      (r : Response) (method url : String) (o : Option String) (v : Value)
      → r.text ≡ o
      → body_of r method url o ≡ ok v
      → HasBody r v
  unfolding body_of
  body_of-HasBody r method url none v h = λ e. cc
  body_of-HasBody r method url (some text) v h =
      if-intro (λ b. b ≡ ok v → HasBody r v) (is_empty text)
        (λ bare e. inr (inl (h ∙ ap some (empty_text text bare), sym (ok-injective e))))
        (λ full.
          if-intro (λ b. b ≡ ok v → HasBody r v) (says_json r)
            (λ json_text e.
              inr (inr (inl (json_text, parsed_of-ok r text method url r.parsed v e))))
            (λ other e. inr (inr (inr (text, other, h, sym (ok-injective e))))))

  read_response_body-HasBody :
      (r : Response) (method url : String) (v : Value)
      → read_response_body r method url ≡ ok v
      → HasBody r v
  unfolding read_response_body
  read_response_body-HasBody r method url v =
      if-intro (λ b. b ≡ ok v → HasBody r v) (r.status == 204 || r.status == 205)
        (λ bare e. inl (ground arith, sym (ok-injective e)))
        (λ full. body_of-HasBody r method url r.text v refl)

  answer_in-ok :
      (x : Exchange) (method url : String) (o : Option Response) (v : Value)
      → x.response ≡ o
      → answer_in x method url o ≡ ok v
      → IsReturned x method url v
  unfolding answer_in
  answer_in-ok x method url none v h e = cc
  answer_in-ok x method url (some r) v h e =
      let (payload, read, e) = >>=-eq-ok (read_response_body r method url) _ e in
      let (low, high, same) = judged-ok r method url x.now payload v e in
      let body = read ∙ ap ok same in
      record {
        response = r;
        responded = h;
        low = low;
        high = high;
        body = body;
        told = read_response_body-HasBody r method url v body;
      }

  caught-IsAnswer :
      (x : Exchange) (method url : String) (r : Result Value)
      → answer_in x method url x.response ≡ r
      → IsAnswer x method url (caught x method url r)
  unfolding caught failure_of
  caught-IsAnswer x method url (ok v) e = answer_in-ok x method url x.response v refl e
  caught-IsAnswer x method url (err (api_error a)) e =
      let (of_method, of_url) =
        subst (IsOwn method url) e (answer_in-IsOwn x method url x.response) in
      record { error = a; same = refl; of_method = of_method; of_url = of_url }
  caught-IsAnswer x method url (err (error message)) e =
      if-intro (IsAnswer x method url) x.did_timeout
        (λ late. record { error = _; same = refl; of_method = refl; of_url = refl })
        (λ in_time.
          if-intro (IsAnswer x method url) x.is_aborted
            (λ stopped. record { error = _; same = refl; of_method = refl; of_url = refl })
            (λ runs. record { error = _; same = refl; of_method = refl; of_url = refl }))

  -- A request whose path and headers are accepted returns the body of an answer with a status
  -- from 200 to 299, or throws an ApiError of its own method and URL, whatever went wrong after
  -- it was sent.
  pub api_request-IsAnswer :
      (with_params : Url → List (String × String) → Url) (o : ApiRequestOptions) (x : Exchange)
      (base : Url) (headers : List (String × String))
      → build_api_url o.path ≡ ok base
      → request_headers o ≡ ok headers
      → IsAnswer x
          (request_method o)
          (with_params base (append_query o.query)).href
          (api_request with_params o x)
  unfolding api_request
  api_request-IsAnswer with_params o x base headers h taken =
      rw (h, taken)
        (caught-IsAnswer x (request_method o) (with_params base (append_query o.query)).href _ refl)
