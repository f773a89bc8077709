-- ===== src/Api.antt =====
-- api/server.go: the handlers of the HTTP server, over the database that they call. The JSON decoder
-- is the standard library's: a request carries what it makes of the body, `none` for its error. The
-- texts of the replies are named, not spelled out.
pub mod Replies
use harmony_db.Base.{ℕ, Option, none, some, List, [], ◌∷◌}
use harmony_db.Tree.Page.{Key}

pub data Method : Type 0 where
  get post other : Method

-- `PutRequest`; a `GetRequest` has the key only.
pub record PutRequest : Type 0 where
  pub key : Key
  pub value : List ℕ

pub record GetRequest : Type 0 where
  pub key : Key

pub record Request (B : Type 0) : Type 0 where
  pub method : Method
  pub body : Option B

-- The texts, with the error `E` of the database where they contain it.
pub data Text (E : Type 0) : Type 0 where
  method_not_allowed healthy invalid_json_body key_cannot_be_empty : Text E
  failed get_failed : E → Text E
  successfully_stored_key : Key → Text E

-- A plain text from `http.Error`, or the fields of the `Response` that are set.
pub data Reply (E : Type 0) : Type 0 where
  plain : ℕ → Text E → Reply E
  error : ℕ → Text E → Reply E
  message : ℕ → Text E → Reply E
  value : ℕ → List ℕ → Reply E

-- `Put` and `Get` of the database, on its state `S`; `none` is a nil error.
pub record Backend (S E : Type 0) : Type 0 where
  pub put : Key → List ℕ → S → Option E × S
  pub get : Key → S → (List ℕ × Option E) × S

unfoldable pub handle_health : {E : Type 0} → Request Unit → Reply E
handle_health r = elim r.method [
  | get ↦ message 200 healthy
  | post ↦ plain 405 method_not_allowed
  | other ↦ plain 405 method_not_allowed
]

module _ {S E : Type 0} where
  -- The end of `handlePut`, behind the call of the database.
  unfoldable pub put_reply : Key → Option E × S → Reply E × S
  put_reply key (none, s) = (message 200 (successfully_stored_key key), s)
  put_reply key (some e, s) = (error 500 (failed e), s)

  unfoldable pub put_body : Backend S E → Option PutRequest → S → Reply E × S
  unfolding put_reply
  put_body db none s = (error 400 invalid_json_body, s)
  put_body db (some req) s = elim req.key [
    | [] ↦ (error 400 key_cannot_be_empty, s)
    | b ∷ bs ↦ put_reply req.key (db.put req.key req.value s)
  ]

  unfoldable pub handle_put : Backend S E → Request PutRequest → S → Reply E × S
  unfolding put_body
  handle_put db r s = elim r.method [
    | post ↦ put_body db r.body s
    | get ↦ (plain 405 method_not_allowed, s)
    | other ↦ (plain 405 method_not_allowed, s)
  ]

  unfoldable pub get_reply : (List ℕ × Option E) × S → Reply E × S
  get_reply ((val, none), s) = (value 200 val, s)
  get_reply ((val, some e), s) = (error 500 (get_failed e), s)

  unfoldable pub get_body : Backend S E → Option GetRequest → S → Reply E × S
  unfolding get_reply
  get_body db none s = (error 400 invalid_json_body, s)
  get_body db (some req) s = elim req.key [
    | [] ↦ (error 400 key_cannot_be_empty, s)
    | b ∷ bs ↦ get_reply (db.get req.key s)
  ]

  unfoldable pub handle_get : Backend S E → Request GetRequest → S → Reply E × S
  unfolding get_body
  handle_get db r s = elim r.method [
    | post ↦ get_body db r.body s
    | get ↦ (plain 405 method_not_allowed, s)
    | other ↦ (plain 405 method_not_allowed, s)
  ]
