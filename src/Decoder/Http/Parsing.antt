-- ===== src/Decoder/Http/Parsing.antt =====
-- The loop of `Parse` of decoder/http.go. What `http.ReadRequest` and `http.ReadResponse` return, call
-- after call, is a parameter: a message, the error `InternalReaderNil`, or another error. After its last
-- answer a call waits for bytes.
use data_collector.Base.{
  ◌≡◌, ◌≢◌, refl, sym, ◌∙◌, List, [], ◌∷◌, ◌++◌, append_assoc, append-nil, All,
}

pub data Answer (A : Type 0) : Type 0 where
  message : A → Answer A
  reader_nil : Answer A
  failure : Answer A

-- Whether the loop returned, or in which call it waits.
pub data Ending : Type 0 where
  returned waits_for_request waits_for_response : Ending

-- What went into `repChan`: a response with its request.
pub record Parsed (Q R : Type 0) : Type 0 where
  pub replies : List (Q × R)
  pub ending : Ending

module _ {Q R : Type 0} where
  unfoldable pub parse : List (Answer Q) → List (Answer R) → List (Q × R) → Parsed Q R
  parse [] rs sent = record { replies = sent; ending = waits_for_request }
  parse (reader_nil ∷ qs) rs sent = parse qs rs sent
  parse (failure ∷ qs) rs sent = record { replies = sent; ending = returned }
  parse (message q ∷ qs) [] sent = record { replies = sent; ending = waits_for_response }
  parse (message q ∷ qs) (reader_nil ∷ rs) sent = parse qs rs sent
  parse (message q ∷ qs) (failure ∷ rs) sent = record { replies = sent; ending = returned }
  parse (message q ∷ qs) (message r ∷ rs) sent = parse qs rs (sent ++ (q, r) ∷ [])

-- The messages before the first failure.
abbrev pub messages : {A : Type 0} → List (Answer A) → List A
messages [] = []
messages (message a ∷ xs) = a ∷ messages xs
messages (reader_nil ∷ xs) = messages xs
messages (failure ∷ xs) = []

abbrev pub pairs : {A B : Type 0} → List A → List B → List (A × B)
pairs [] bs = []
pairs (a ∷ rest) [] = []
pairs (a ∷ rest) (b ∷ bs) = (a, b) ∷ pairs rest bs

module _ {Q R : Type 0} where
  parse-sent :
      (qs : List (Answer Q)) (rs : List (Answer R)) (sent : List (Q × R))
      → All (λ r. r ≢ reader_nil) rs
      → (parse qs rs sent).replies ≡ sent ++ pairs (messages qs) (messages rs)
  unfolding parse
  parse-sent [] rs sent h = sym (append-nil sent)
  parse-sent (reader_nil ∷ qs) rs sent h = parse-sent qs rs sent h
  parse-sent (failure ∷ qs) rs sent h = sym (append-nil sent)
  parse-sent (message q ∷ qs) [] sent h = sym (append-nil sent)
  parse-sent (message q ∷ qs) (reader_nil ∷ rs) sent h = absurd (h.0 refl)
  parse-sent (message q ∷ qs) (failure ∷ rs) sent h = sym (append-nil sent)
  parse-sent (message q ∷ qs) (message r ∷ rs) sent h =
      parse-sent qs rs (sent ++ (q, r) ∷ []) h.1
      ∙ append_assoc sent ((q, r) ∷ []) (pairs (messages qs) (messages rs))

  -- While no read of a response finds its reader missing, the n-th response goes out with the n-th
  -- request, in order, of those read before a failure.
  pub parse-pairs :
      (qs : List (Answer Q)) (rs : List (Answer R))
      → All (λ r. r ≢ reader_nil) rs
      → (parse qs rs []).replies ≡ pairs (messages qs) (messages rs)
  parse-pairs qs rs h = parse-sent qs rs [] h

  -- A read of a response that does costs the request read before it: each later response goes out with
  -- the request after its own.
  pub parse-reader_nil :
      (q : Q) (qs : List (Answer Q)) (rs : List (Answer R))
      → All (λ r. r ≢ reader_nil) rs
      → (parse (message q ∷ qs) (reader_nil ∷ rs) []).replies ≡ pairs (messages qs) (messages rs)
  unfolding parse
  parse-reader_nil q qs rs h = parse-sent qs rs [] h
