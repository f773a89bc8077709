-- ===== src/Api/Replies.antt =====
-- What a sequence of requests to the handlers of api/server.go does to the database, and the replies.
use harmony_db.Base.{
  ℕ, ◌≡◌, ◌≢◌, refl, ◌∙◌, ap, Bool, true, false, Option, none, some, List, [], ◌∷◌, arith, All,
  if◌then◌else◌,
}
use harmony_db.Tree.Page.{Key}
use harmony_db.Api.{
  Method, PutRequest, GetRequest, Request, Reply, plain, error, message, value, Backend,
  successfully_stored_key, put_reply, put_body, handle_put, get_reply, get_body, handle_get,
}

pub status : {E : Type 0} → Reply E → ℕ
status (plain n t) = n
status (error n t) = n
status (message n t) = n
status (value n t) = n

-- A request to `/put` or to `/get`.
pub data Incoming : Type 0 where
  to_put : Request PutRequest → Incoming
  to_get : Request GetRequest → Incoming

pub data Call : Type 0 where
  put_call : Key → List ℕ → Call
  get_call : Key → Call

abbrev keyed : {B : Type 0} → Key → B → Option B
keyed [] b = none
keyed (k ∷ ks) b = some b

abbrev is_post : Method → Bool
is_post Method.post = true
is_post Method.get = false
is_post Method.other = false

abbrev put_call_of : Option PutRequest → Option Call
put_call_of none = none
put_call_of (some req) = keyed req.key (put_call req.key req.value)

abbrev get_call_of : Option GetRequest → Option Call
get_call_of none = none
get_call_of (some req) = keyed req.key (get_call req.key)

-- The call that a request asks for: it is a POST whose body decodes to a key that is not empty.
abbrev pub call_of : Incoming → Option Call
call_of (to_put r) = if is_post r.method then put_call_of r.body else none
call_of (to_get r) = if is_post r.method then get_call_of r.body else none

-- The status of a request that asks for no call.
abbrev pub refusal : Incoming → ℕ
refusal (to_put r) = if is_post r.method then 400 else 405
refusal (to_get r) = if is_post r.method then 400 else 405

module _ {S E : Type 0} (db : Backend S E) where
  -- The reply of the handler that the request goes to.
  abbrev pub serve : Incoming → S → Reply E × S
  serve (to_put r) s = handle_put db r s
  serve (to_get r) s = handle_get db r s

  -- The statuses of the replies to some requests, one after the other, and the database then.
  abbrev pub serve_all : List Incoming → S → List ℕ × S
  serve_all [] s = ([], s)
  serve_all (q ∷ qs) s =
      let (statuses, s2) = serve_all qs (serve q s).1 in (status (serve q s).0 ∷ statuses, s2)

  abbrev pub outcome : Option E → ℕ
  outcome none = 200
  outcome (some e) = 500

  -- What a call makes of the database, with 200 if it returns no error and else 500.
  abbrev pub perform : Call → S → ℕ × S
  perform (put_call key val) s = (outcome (db.put key val s).0, (db.put key val s).1)
  perform (get_call key) s = (outcome (db.get key s).0.1, (db.get key s).1)

  abbrev answer : Option Call → ℕ → S → ℕ × S
  answer none refused s = (refused, s)
  answer (some c) refused s = perform c s

  -- The calls of the requests, in order.
  abbrev pub answer_all : List Incoming → S → List ℕ × S
  answer_all [] s = ([], s)
  answer_all (q ∷ qs) s =
      let now = answer (call_of q) (refusal q) s in
      let (statuses, s2) = answer_all qs now.1 in (now.0 ∷ statuses, s2)

  abbrev with_status : Reply E × S → ℕ × S
  with_status (r, s) = (status r, s)

  abbrev put_outcome : Option E × S → ℕ × S
  put_outcome (o, s) = (outcome o, s)

  abbrev get_outcome : (List ℕ × Option E) × S → ℕ × S
  get_outcome ((val, o), s) = (outcome o, s)

  put_reply-outcome : (key : Key) (o : Option E × S) → with_status (put_reply key o) ≡ put_outcome o
  unfolding put_reply status
  put_reply-outcome key (none, s) = refl
  put_reply-outcome key (some e, s) = refl

  get_reply-outcome : (o : (List ℕ × Option E) × S) → with_status (get_reply o) ≡ get_outcome o
  unfolding get_reply status
  get_reply-outcome ((val, none), s) = refl
  get_reply-outcome ((val, some e), s) = refl

  put_keyed :
      (key : Key) (val : List ℕ) (s : S)
      → with_status (put_body db (some (record { key = key; value = val })) s)
        ≡ answer (keyed key (put_call key val)) 400 s
  unfolding put_body status
  put_keyed [] val s = refl
  put_keyed (k ∷ ks) val s = put_reply-outcome (k ∷ ks) (db.put (k ∷ ks) val s)

  get_keyed :
      (key : Key) (s : S)
      → with_status (get_body db (some (record { key = key })) s)
        ≡ answer (keyed key (get_call key)) 400 s
  unfolding get_body status
  get_keyed [] s = refl
  get_keyed (k ∷ ks) s = get_reply-outcome (db.get (k ∷ ks) s)

  put_answered :
      (m : Method) (body : Option PutRequest) (s : S)
      → with_status (handle_put db (record { method = m; body = body }) s)
        ≡ answer (if is_post m then put_call_of body else none) (if is_post m then 400 else 405) s
  unfolding handle_put status
  put_answered Method.get body s = refl
  put_answered Method.other body s = refl
  put_answered Method.post none s = unfold put_body in refl
  put_answered Method.post (some req) s = put_keyed req.key req.value s

  get_answered :
      (m : Method) (body : Option GetRequest) (s : S)
      → with_status (handle_get db (record { method = m; body = body }) s)
        ≡ answer (if is_post m then get_call_of body else none) (if is_post m then 400 else 405) s
  unfolding handle_get status
  get_answered Method.get body s = refl
  get_answered Method.other body s = refl
  get_answered Method.post none s = unfold get_body in refl
  get_answered Method.post (some req) s = get_keyed req.key s

  answered : (q : Incoming) (s : S) → with_status (serve q s) ≡ answer (call_of q) (refusal q) s
  answered (to_put r) s = put_answered r.method r.body s
  answered (to_get r) s = get_answered r.method r.body s

  abbrev with_first : ℕ → List ℕ × S → List ℕ × S
  with_first n (ns, s) = (n ∷ ns, s)

  -- Over any sequence of requests to `/put` and `/get` the database sees exactly the calls of the
  -- POSTs whose body decodes to a key that is not empty, each once, in order and with its key and
  -- value. Such a request is answered with 200 if its call returns no error, and else with 500; any
  -- other POST with 400, and every request that is not a POST with 405.
  pub serve_all-calls : (qs : List Incoming) (s : S) → serve_all qs s ≡ answer_all qs s
  serve_all-calls [] s = refl
  serve_all-calls (q ∷ qs) s =
      let now = answered q s in
      let after : (serve q s).1 ≡ (answer (call_of q) (refusal q) s).1 = ap (λ x. x.1) now in
      let rest : serve_all qs (serve q s).1 ≡ answer_all qs (answer (call_of q) (refusal q) s).1 =
        serve_all-calls qs (serve q s).1 ∙ ap (answer_all qs) after in
      ap (λ n. with_first n (serve_all qs (serve q s).1)) (ap (λ x. x.0) now)
      ∙ ap (with_first (answer (call_of q) (refusal q) s).0) rest

  no_calls : (qs : List Incoming) (s : S) → All (λ q. call_of q ≡ none) qs → (answer_all qs s).1 ≡ s
  no_calls [] s h = refl
  no_calls (q ∷ qs) s h =
      ap (λ o. (answer_all qs (answer o (refusal q) s).1).1) h.0 ∙ no_calls qs s h.1

  put_reply-stored :
      (key : Key) (o : Option E × S)
      → o.0 ≡ none
      → put_reply key o ≡ (message 200 (successfully_stored_key key), o.1)
  unfolding put_reply
  put_reply-stored key (none, s) h = refl
  put_reply-stored key (some e, s) h = absurd (ground (arith, h))

  get_reply-found :
      (o : (List ℕ × Option E) × S) (val : List ℕ)
      → o.0 ≡ (val, none)
      → (get_reply o).0 ≡ value 200 val
  unfolding get_reply
  get_reply-found ((v, none), s) val h = ap (λ x. value 200 x.0) h
  get_reply-found ((v, some e), s) val h =
      let wrong : some e ≡ none = ap (λ x. x.1) h in absurd (ground (arith, wrong))

  put_posted :
      (k : ℕ) (ks : Key) (val : List ℕ) (s : S)
      → handle_put db
          (record { method = Method.post; body = some (record { key = k ∷ ks; value = val }) })
          s
        ≡ put_reply (k ∷ ks) (db.put (k ∷ ks) val s)
  unfolding handle_put put_body
  put_posted k ks val s = refl

  get_posted :
      (k : ℕ) (ks : Key) (s : S)
      → (handle_get db (record { method = Method.post; body = some (record { key = k ∷ ks }) }) s).0
        ≡ (get_reply (db.get (k ∷ ks) s)).0
  unfolding handle_get get_body
  get_posted k ks s = refl

  -- Suppose the database stores a value under a key that is not empty without an error, and would
  -- then return that value for the key. Then the handler answers the POST that puts them with 200
  -- and the message that the key is stored; and after any further requests that ask for no call of
  -- the database, the POST that gets the key is answered with 200 and the value.
  pub put_then_get :
      (key : Key) (val : List ℕ) (s : S) (between : List Incoming)
      → key ≢ []
      → (db.put key val s).0 ≡ none
      → (db.get key (db.put key val s).1).0 ≡ (val, none)
      → All (λ q. call_of q ≡ none) between
      → let put_it : Request PutRequest = record {
        method = Method.post;
        body = some (record { key = key; value = val });
      } in
        let get_it : Request GetRequest = record {
          method = Method.post;
          body = some (record { key = key });
        } in
        let first = handle_put db put_it s in
        (first.0 ≡ message 200 (successfully_stored_key key))
        × ((handle_get db get_it (serve_all between first.1).1).0 ≡ value 200 val)
  put_then_get [] val s between some_key stored finds quiet = absurd (some_key refl)
  put_then_get (k ∷ ks) val s between some_key stored finds quiet =
      let puts = put_posted k ks val s ∙ put_reply-stored (k ∷ ks) (db.put (k ∷ ks) val s) stored in
      let after =
        (handle_put db
          (record { method = Method.post; body = some (record { key = k ∷ ks; value = val }) })
          s).1 in
      let kept : (serve_all between after).1 ≡ (db.put (k ∷ ks) val s).1 =
        ap (λ x. x.1) (serve_all-calls between after)
        ∙ no_calls between after quiet
        ∙ ap (λ x. x.1) puts in
      (
        ap (λ x. x.0) puts,
        get_posted k ks _
            ∙ get_reply-found (db.get (k ∷ ks) (serve_all between after).1) val
                (ap (λ x. (db.get (k ∷ ks) x).0) kept ∙ finds),
      )
