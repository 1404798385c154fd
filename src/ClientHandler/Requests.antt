-- ===== src/ClientHandler/Requests.antt =====
-- The loop of one connection and the requests it reads: what they take from the input, and what a
-- request outside of a transaction does.
use key_v_db.Common.{
  ℕ, zero, suc, ◌+◌, ◌<◌, ◌≤◌, ◌≡◌, ◌⊎◌, inl, inr, refl, ap, ◌∙◌, Bool, true, false, Option, none,
  some, [], length, take, drop, ltb, ◌==◌, nat_eq, if◌then◌else◌, arith, Bool-cases, not,
  length-drop, nltb→le,
}
use key_v_db.Common.Bytes.{Bytes}
use key_v_db.Common.Result.{Result, ok, err, deadlock}
use key_v_db.Btree.{Tree}
use key_v_db.Txn.{Session, Outcome, returns, throws, pending}
use key_v_db.Txn
use key_v_db.ClientHandler.{
  Handler, Reason, World, already_open, no_transaction, unknown_opcode, op_begin, op_get, op_put,
  op_delete, op_commit, op_rollback, read_exact, read_body, from_be, read_string, response,
  status_error, thrown,
}
use key_v_db.ClientHandler

pub read_exact-le : (n : ℕ) (input : Bytes) → length (read_exact n input).1 ≤ length input
unfolding read_exact
read_exact-le n input = elim (Bool-cases (ltb (length input) n)) [
  | inl h ↦ rw h (omega arith)
  | inr h ↦ rw h (rw (length-drop n input) (omega arith))
]

-- A read gets all its bytes, or the input was too short.
read_exact-cases :
    (n : ℕ) (input : Bytes)
    → (read_exact n input ≡ (none, []))
      ⊎ ((b : Bytes) × (rest : Bytes) × (read_exact n input ≡ (some b, rest))
          × (length rest + n ≡ length input))
unfolding read_exact
read_exact-cases n input = elim (Bool-cases (ltb (length input) n)) [
  | inl h ↦ inl (rw h refl)
  | inr h ↦ inr (
    take n input,
    drop n input,
    rw h refl,
    rw (length-drop n input) (omega (arith, nltb→le _ _ h)),
  )
]

read_body-le : (r : Option Bytes × Bytes) → length (read_body r).1 ≤ length r.1
read_body-le (none, input) = omega arith
read_body-le (some len, input) = read_exact-le _ input

pub read_string-le : (input : Bytes) → length (read_string input).1 ≤ length input
unfolding read_string
read_string-le input = omega (arith, read_body-le (read_exact 2 input), read_exact-le 2 input)

module _ (tree : Tree) (text : Reason → Bytes) where
  -- The input of `h'` is what is left of the input of `h`.
  abbrev Leaves : Handler tree text → Handler tree text → Type 0
  Leaves h h' = length h'.input ≤ length h.input

  settle-input :
      {A : Type 0} (w : World) (o : Outcome A × Session tree)
      (reply : A → Handler tree text → Handler tree text) (h : Handler tree text)
      → ((a : A) (h' : Handler tree text) → (reply a h').input ≡ h'.input)
      → (ClientHandler.settle tree text w o reply h).input ≡ h.input
  unfolding ClientHandler.settle ClientHandler.reset
  settle-input w (returns a, s) reply h keeps = keeps a _
  settle-input w (throws deadlock, s) reply h keeps = refl
  settle-input w (throws e, s) reply h keeps = refl
  settle-input w (pending, s) reply h keeps = refl

  settle-Leaves :
      {A : Type 0} (w : World) (o : Outcome A × Session tree)
      (reply : A → Handler tree text → Handler tree text) (h : Handler tree text)
      → ((a : A) (h' : Handler tree text) → (reply a h').input ≡ h'.input)
      → Leaves h (ClientHandler.settle tree text w o reply h)
  settle-Leaves w o reply h keeps = rw (settle-input w o reply h keeps) (omega arith)

  with_key-le :
      (h : Handler tree text) (r : Option Bytes × Bytes)
      (call : Bytes → Handler tree text → Handler tree text)
      → length r.1 ≤ length h.input
      → ((key : Bytes) (h' : Handler tree text) → Leaves h' (call key h'))
      → Leaves h (ClientHandler.with_key tree text h r call)
  with_key-le h (none, input) call le keeps = le
  with_key-le h (some key, input) call le keeps =
      omega (arith, keeps key (record h { input = input }), le)

  found-input :
      (v : Option Bytes) (h : Handler tree text)
      → (ClientHandler.send_found tree text v h).input ≡ h.input
  found-input none h = refl
  found-input (some v) h = refl

  if-Leaves :
      (b : Bool) (h x y : Handler tree text)
      → Leaves h x
      → Leaves h y
      → Leaves h (if b then x else y)
  if-Leaves true h x y p q = p
  if-Leaves false h x y p q = q

  get-Leaves :
      (w : World) (h : Handler tree text) → Leaves h (ClientHandler.handle_get tree text w h)
  unfolding ClientHandler.handle_get
  get-Leaves w h = if-Leaves (not h.is_open) h _ _ (omega arith) (
      with_key-le h (read_string h.input) _ (read_string-le h.input) λ key h'.
        settle-Leaves w (Txn.get tree w.env key h'.session) (ClientHandler.send_found tree text) h'
          found-input)

  put-Leaves :
      (w : World) (h : Handler tree text) → Leaves h (ClientHandler.handle_put tree text w h)
  unfolding ClientHandler.handle_put
  put-Leaves w h = if-Leaves (not h.is_open) h _ _ (omega arith) (
      with_key-le h (read_string h.input) _ (read_string-le h.input) λ key h1.
        with_key-le h1 (read_string h1.input) _ (read_string-le h1.input) λ value h2.
          settle-Leaves w (Txn.put tree w.env key value h2.session)
            (λ _. ClientHandler.send_ok tree text) h2 (λ _ _. refl))

  delete-Leaves :
      (w : World) (h : Handler tree text) → Leaves h (ClientHandler.handle_delete tree text w h)
  unfolding ClientHandler.handle_delete
  delete-Leaves w h = if-Leaves (not h.is_open) h _ _ (omega arith) (
      with_key-le h (read_string h.input) _ (read_string-le h.input) λ key h'.
        settle-Leaves w (Txn.delete tree w.env key h'.session)
          (λ _. ClientHandler.send_ok tree text) h' (λ _ _. refl))

  committed-Leaves :
      (w : World) (o : Outcome (Unit {0}) × Session tree) (h : Handler tree text)
      → Leaves h (ClientHandler.committed tree text w o h)
  unfolding ClientHandler.reset
  committed-Leaves w (returns _, s) h = omega arith
  committed-Leaves w (throws e, s) h = omega arith
  committed-Leaves w (pending, s) h = omega arith

  begun-Leaves :
      (r : Result ℕ) (s : Session tree) (h : Handler tree text)
      → Leaves h (ClientHandler.begun tree text r s h)
  begun-Leaves (ok n) s h = omega arith
  begun-Leaves (err e) s h = omega arith

  dispatch-Leaves :
      (op : ℕ) (w : World) (h : Handler tree text)
      → Leaves h (ClientHandler.dispatch tree text op w h)
  unfolding ClientHandler.dispatch ClientHandler.handle_begin ClientHandler.handle_commit
      ClientHandler.handle_rollback ClientHandler.reset
  dispatch-Leaves op w h =
      if-Leaves (op == op_begin) h _ _
        (if-Leaves h.is_open h _ _ (omega arith) (begun-Leaves _ _ h))
        (if-Leaves (op == op_get) h _ _ (get-Leaves w h) (
          if-Leaves (op == op_put) h _ _ (put-Leaves w h) (
            if-Leaves (op == op_delete) h _ _ (delete-Leaves w h) (
              if-Leaves (op == op_commit) h _ _
                (if-Leaves (not h.is_open) h _ _ (omega arith) (committed-Leaves w _ h))
                (if-Leaves (op == op_rollback) h _ _
                  (if-Leaves (not h.is_open) h _ _ (omega arith) (omega arith)) (omega arith))))))

  if-closed :
      (b : Bool) (x y : Handler tree text)
      → x.is_open ≡ false
      → (b ≡ false → y.is_open ≡ false)
      → (if b then x else y).is_open ≡ false
  if-closed true x y p q = p
  if-closed false x y p q = q refl

  disconnect-closed :
      (w : World) (h : Handler tree text) → (ClientHandler.disconnect tree text w h).is_open ≡ false
  unfolding ClientHandler.disconnect ClientHandler.reset
  disconnect-closed w h = if-closed h.is_open _ h refl (λ e. e)

  if-going :
      (b : Bool) (h : Handler tree text) (o : Option (Handler tree text))
      → b ≡ false
      → (if b then some h else o) ≡ o
  if-going b h o e = ap (λ c. if c then some h else o) e

  if-stopped :
      (b : Bool) (h : Handler tree text) (o : Option (Handler tree text))
      → b ≡ true
      → (if b then some h else o) ≡ some h
  if-stopped b h o e = ap (λ c. if c then some h else o) e

  -- A round either finds the end of the input, or takes at least the five bytes of a header.
  round-cases :
      (w : World) (h : Handler tree text)
      → (ClientHandler.round tree text w h ≡ none)
        ⊎ ((h' : Handler tree text) × (ClientHandler.round tree text w h ≡ some h')
            × (length h'.input < length h.input))
  unfolding ClientHandler.round
  round-cases w h = elim (read_exact-cases 1 h.input) [
    | inl short ↦ inl (rw short refl)
    | inr (op, input, e, le) ↦ elim (read_exact-cases 4 input) [
      | inl short ↦ inl (rw (e, short) refl)
      | inr (len, rest, e', le') ↦ inr (
        ClientHandler.dispatch tree text (from_be 0 op) w (record h { input = rest }),
        rw (e, e') refl,
        omega (arith, dispatch-Leaves (from_be 0 op) w (record h { input = rest }), le, le'),
      )
    ]
  ]

  -- Over a tree whose operations return, the loop of a connection ends: with more fuel than the input
  -- has bytes it stops, and then its thread waits for a lock or has been left by an exception, or no
  -- transaction is open.
  pub run_ends :
      (fuel : ℕ) (world : ℕ → World) (h : Handler tree text)
      → length h.input < fuel
      → (h' : Handler tree text) × (ClientHandler.run tree text fuel world h ≡ some h')
        × ((h'.is_stopped ≡ true) ⊎ (h'.is_open ≡ false))
  unfolding ClientHandler.run
  run_ends zero world h le = absurd (omega (arith, le))
  run_ends (suc fuel) world h le = elim (round-cases (world fuel) h) [
    | inl ended ↦ (
      ClientHandler.disconnect tree text (world fuel) h,
      rw ended refl,
      inr (disconnect-closed (world fuel) h),
    )
    | inr (h', e, less) ↦ elim (Bool-cases h'.is_stopped) [
      | inl stopped ↦ (h', rw e (if-stopped h'.is_stopped h' _ stopped), inl stopped)
      | inr going ↦
          let (h2, p, q) = run_ends fuel world h' (omega (arith, less, le)) in
          (h2, rw e (if-going h'.is_stopped h' _ going ∙ p), q)
    ]
  ]
