-- ===== src/Delivery/Sends.antt =====
-- The letters of the outbox over all calls: no key has two, and none is tried more than five times.
use asynchronnous_agent_os.Prelude.{
  ℕ, ◌+◌, ◌≤◌, ◌<◌, ◌≡◌, refl, sym, Bool, true, false, String, List, [], ◌∷◌, ◌++◌, Option, none,
  some, keep, arith, str_eq, eq_iff, All, Option-cases, Bool-cases, inl, inr,
}
use asynchronnous_agent_os.Json.{Json}
use asynchronnous_agent_os.Table.{find, update}
use asynchronnous_agent_os.Table.Laws.{Rows, Rows-All, Rows-update, Rows-update_found}
use asynchronnous_agent_os.Delivery.Outbox.{
  Letter, Mail, is_open, letter_key, letter_under, letter_of, enqueue_outbox, letter_in,
  append_message_and_enqueue_outbox, purge_outbox, arrived, mark_outbox_delivered, bounced,
  mark_outbox_failed,
}

-- A call on the outbox. A letter is marked after it was sent, which the drain does with letters that
-- it selected, and that are open until it marks them.
pub data Step (rows : List Letter) : List Letter → Type 0 where
  enqueues :
      (same_json : Json → Json → Bool) (i : Mail) (id now : ℕ)
      → Step rows (enqueue_outbox same_json rows i id now).0
  -- `session` and `appended` are what the store answers of the message's session and the message.
  appends :
      (same_text_of : Json → Json → Bool) (session : Option String) (appended : Bool) (i : Mail)
      (id at : ℕ)
      → Step rows (append_message_and_enqueue_outbox same_text_of rows session appended i id at).0
  purges : (session : String) → Step rows (purge_outbox rows session)
  delivers : (id now : ℕ) → Step rows (mark_outbox_delivered rows id now)
  bounces :
      (id now : ℕ) (error : String) (r : Letter) (rows' : List Letter)
      → find id rows ≡ some r
      → is_open r.status ≡ true
      → mark_outbox_failed rows id error now ≡ some rows'
      → Step rows rows'

pub data Run : List Letter → Type 0 where
  empty : Run []
  next : {rows rows' : List Letter} → Run rows → Step rows rows' → Run rows'

-- A letter is tried at most five times, fewer times while it is open.
pub record IsTried (r : Letter) : Type 0 where
  pub bounded : r.attempt ≤ 5
  pub left : is_open r.status ≡ true → r.attempt < 5

-- No two letters have one key.
abbrev pub OneEach : List Letter → Type 0
OneEach [] = Unit
OneEach (r ∷ rows) = (letter_under r.idempotency_key rows ≡ none) × OneEach rows

-- A letter stays under its key, and within its attempts.
record Keeps (r u : Letter) : Type 0 where
  key : u.idempotency_key ≡ r.idempotency_key
  tried : IsTried r → IsTried u

Keeps-refl : (r : Letter) → Keeps r r
Keeps-refl r = record { key = refl; tried = λ h. h }

letter_under-Rows :
    (key : String) (xs ys : List Letter)
    → Rows Keeps xs ys
    → letter_under key xs ≡ none
    → letter_under key ys ≡ none
unfolding letter_under
letter_under-Rows key [] [] g e = refl
letter_under-Rows key [] (y ∷ ys) g e = absurd g
letter_under-Rows key (x ∷ xs) [] g e = absurd g
letter_under-Rows key (x ∷ xs) (y ∷ ys) g e =
    let same = g.0.key in ground (arith, same, letter_under-Rows key xs ys g.1)

OneEach-Rows : (xs ys : List Letter) → Rows Keeps xs ys → OneEach xs → OneEach ys
OneEach-Rows [] [] g h = tt
OneEach-Rows [] (y ∷ ys) g h = absurd g
OneEach-Rows (x ∷ xs) [] g h = absurd g
OneEach-Rows (x ∷ xs) (y ∷ ys) g h =
    (rw (g.0.key) (letter_under-Rows x.idempotency_key xs ys g.1 h.0), OneEach-Rows xs ys g.1 h.1)

letter_under-append :
    (key : String) (xs : List Letter) (r : Letter)
    → letter_under key xs ≡ none
    → str_eq r.idempotency_key key ≡ false
    → letter_under key (xs ++ (r ∷ [])) ≡ none
unfolding letter_under
letter_under-append key [] r e f = ground arith
letter_under-append key (x ∷ xs) r e f = ground (arith, letter_under-append key xs r)

OneEach-append :
    (xs : List Letter) (r : Letter)
    → letter_under r.idempotency_key xs ≡ none
    → OneEach xs
    → OneEach (xs ++ (r ∷ []))
unfolding letter_under
OneEach-append [] r e h = (refl, tt)
OneEach-append (x ∷ xs) r e h = elim (Bool-cases (str_eq r.idempotency_key x.idempotency_key)) [
  | inl a ↦
      let same : r.idempotency_key ≡ x.idempotency_key =
        (eq_iff r.idempotency_key x.idempotency_key).0 a in
      absurd (ground (arith, (eq_iff x.idempotency_key r.idempotency_key).1 (sym same)))
  | inr a ↦
      (letter_under-append x.idempotency_key xs r h.0 a, OneEach-append xs r (ground arith) h.1)
]

All-append :
    (xs : List Letter) (r : Letter) → All IsTried xs → IsTried r → All IsTried (xs ++ (r ∷ []))
All-append [] r a h = (h, tt)
All-append (x ∷ xs) r a h = (a.0, All-append xs r a.1 h)

abbrev IsOrderly : List Letter → Type 0
IsOrderly rows = OneEach rows × All IsTried rows

Rows-IsOrderly : (xs ys : List Letter) → Rows Keeps xs ys → IsOrderly xs → IsOrderly ys
Rows-IsOrderly xs ys g h =
    (OneEach-Rows xs ys g h.0, Rows-All Keeps IsTried (λ a b k. k.tried) xs ys g h.1)

append-IsOrderly :
    (rows : List Letter) (r : Letter)
    → letter_under r.idempotency_key rows ≡ none
    → r.attempt ≡ 0
    → IsOrderly rows
    → IsOrderly (rows ++ (r ∷ []))
append-IsOrderly rows r e new h =
    let few : IsTried r = record { bounded = omega (arith, new); left = λ _. omega (arith, new) } in
    (OneEach-append rows r e h.0, All-append rows r h.1 few)

enqueue-IsOrderly :
    (same_json : Json → Json → Bool) (rows : List Letter) (i : Mail) (id now : ℕ)
    → IsOrderly rows
    → IsOrderly (enqueue_outbox same_json rows i id now).0
unfolding enqueue_outbox
enqueue-IsOrderly same_json rows i id now h =
    elim (Option-cases (letter_under i.idempotency_key rows)) [
      | inr (r, e) ↦ ground arith
      | inl e ↦ let grown = append-IsOrderly rows (letter_of i id now) e refl h in ground arith
    ]

message-IsOrderly :
    (same_text_of : Json → Json → Bool) (rows : List Letter) (session : Option String)
    (appended : Bool) (i : Mail) (id at : ℕ)
    → IsOrderly rows
    → IsOrderly (append_message_and_enqueue_outbox same_text_of rows session appended i id at).0
unfolding append_message_and_enqueue_outbox
message-IsOrderly same_text_of rows none appended i id at h = h
message-IsOrderly same_text_of rows (some session) appended i id at h =
    elim (Option-cases (letter_under i.idempotency_key rows)) [
      | inr (r, e) ↦ ground arith
      | inl e ↦
          let grown = append-IsOrderly rows (letter_in session i id at) e refl h in ground arith
    ]

letter_under-keep :
    (test : Letter → Bool) (key : String) (xs : List Letter)
    → letter_under key xs ≡ none
    → letter_under key (keep test xs) ≡ none
unfolding letter_under
letter_under-keep test key [] e = refl
letter_under-keep test key (x ∷ xs) e = ground (arith, letter_under-keep test key xs)

keep-IsOrderly :
    (test : Letter → Bool) (rows : List Letter) → IsOrderly rows → IsOrderly (keep test rows)
keep-IsOrderly test [] h = h
keep-IsOrderly test (r ∷ rows) h =
    let rest = keep-IsOrderly test rows (h.0.1, h.1.1) in
    elim (Bool-cases (test r)) [
      | inl e ↦
          rw e ((letter_under-keep test r.idempotency_key rows h.0.0, rest.0), (h.1.0, rest.1))
      | inr e ↦ rw e rest
    ]

Keeps-arrived : (now : ℕ) (r : Letter) → is_open r.status ≡ true → Keeps r (arrived now r)
Keeps-arrived now r e = record {
  key = refl;
  tried =
      λ h. let few = h.left e in record { bounded = omega (arith, few); left = λ x. ground arith };
}

Keeps-bounced :
    (error : String) (now : ℕ) (r : Letter)
    → is_open r.status ≡ true
    → Keeps r (bounced error (r.attempt + 1) now r)
Keeps-bounced error now r e = record {
  key = refl;
  tried = λ h.
      let few = h.left e in
      record { bounded = omega (arith, few); left = λ x. ground (arith, few) };
}

-- Whatever is enqueued by itself or with a message, delivered, bounced or purged with its session in
-- whatever order from an empty table, where a letter that bounces was still open: no idempotency key has two letters, and no letter is tried more than five times, nor five
-- times while it is open.
pub letters_bounded : {rows : List Letter} → Run rows → OneEach rows × All IsTried rows
unfolding mark_outbox_delivered mark_outbox_failed purge_outbox
letters_bounded empty = (tt, tt)
letters_bounded (next {rows} run (enqueues same_json i id now)) =
    enqueue-IsOrderly same_json rows i id now (letters_bounded run)
letters_bounded (next {rows} run (appends same_text_of session appended i id at)) =
    message-IsOrderly same_text_of rows session appended i id at (letters_bounded run)
letters_bounded (next {rows} run (purges session)) = keep-IsOrderly _ rows (letters_bounded run)
letters_bounded (next {rows} run (delivers id now)) =
    Rows-IsOrderly rows (mark_outbox_delivered rows id now)
      (Rows-update Keeps Keeps-refl id (λ r. is_open r.status) (arrived now) (Keeps-arrived now)
        rows)
      (letters_bounded run)
letters_bounded (next {rows} run (bounces id now error r rows' e open_ f)) =
    let written = update id (λ _. true) (bounced error (r.attempt + 1) now) rows in
    let g : Rows Keeps rows written =
      Rows-update_found Keeps Keeps-refl id (λ _. true) (bounced error (r.attempt + 1) now) rows
        (λ a found _.
          let same : a ≡ r = cc (found, e) in rw same (Keeps-bounced error now r open_)) in
    let is : written ≡ rows' = ground arith in
    rw is at (Rows-IsOrderly rows written g (letters_bounded run))
