-- ===== src/Outbox/Relay/Claim.antt =====
-- apps/im-server/src/modules/outbox/services/outbox-relay.service.ts: which rows `claim` takes, and
-- what a change of each row makes of the table.
use slowchat.Base.{
  ℕ, zero, suc, ◌≡◌, ◌≤◌, refl, ap, Bool, true, false, List, [], ◌∷◌, arith, All, Among, map,
  select, count_where, update_where, Bool-cases, inl, inr,
}
use slowchat.Model.{Uuid, Time, OutboxEvent}
use slowchat.Outbox.Relay.{is_claimable, locked_event, claim_rows}

module _ {A : Type 0} where
  pub update-map :
      (p : A → Bool) (f g h : A → A) (xs : List A)
      → All (λ x. (p x ≡ true → g (f x) ≡ h x) × (p x ≡ false → g x ≡ x)) xs
      → map g (update_where p f xs) ≡ update_where p h xs
  update-map p f g h [] all = refl
  update-map p f g h (x ∷ xs) (here, rest) = elim (Bool-cases (p x)) [
    | inl e ↦ ground (arith, here.0 e, update-map p f g h xs rest)
    | inr e ↦ ground (arith, here.1 e, update-map p f g h xs rest)
  ]

  pub All-select_map :
      (P Q : A → Type 0) (p : A → Bool) (f : A → A) (xs : List A)
      → ((x : A) → P x → Q (f x))
      → All P xs
      → All Q (map f (select p xs))
  All-select_map P Q p f [] h all = tt
  All-select_map P Q p f (x ∷ xs) h (here, rest) = elim (Bool-cases (p x)) [
    | inl e ↦ rw e (h x here, All-select_map P Q p f xs h rest)
    | inr e ↦ rw e (All-select_map P Q p f xs h rest)
  ]

  pub Among-map : (f : A → A) (r : A) (xs : List A) → Among r xs → Among (f r) (map f xs)
  Among-map f r [] a = absurd a
  Among-map f r (x ∷ xs) (inl e) = inl (ap f e)
  Among-map f r (x ∷ xs) (inr a) = inr (Among-map f r xs a)

  pub All-of : (P : A → Type 0) (xs : List A) → ((x : A) → Among x xs → P x) → All P xs
  All-of P [] h = tt
  All-of P (x ∷ xs) h = (h x (inl refl), All-of P xs (λ y a. h y (inr a)))

claim_rows-none :
    (worker_id : Uuid) (now until : Time) (rows : List OutboxEvent)
    → claim_rows worker_id now until zero rows ≡ (rows, [])
unfolding claim_rows
claim_rows-none worker_id now until [] = refl
claim_rows-none worker_id now until (e ∷ es) = refl

-- A batch that is large enough takes all rows that can be claimed.
pub claim_rows-all :
    (worker_id : Uuid) (now until : Time) (limit : ℕ) (rows : List OutboxEvent)
    → count_where (is_claimable now) rows ≤ limit
    → claim_rows worker_id now until limit rows ≡ (
      update_where (is_claimable now) (locked_event worker_id until) rows,
      map (locked_event worker_id until) (select (is_claimable now) rows),
    )
unfolding claim_rows
claim_rows-all worker_id now until limit [] h = refl
claim_rows-all worker_id now until zero (e ∷ es) h = elim (Bool-cases (is_claimable now e)) [
  | inl c ↦ absurd (ground arith)
  | inr c ↦
      ground
        (arith, claim_rows-none worker_id now until es, claim_rows-all worker_id now until zero es)
]
claim_rows-all worker_id now until (suc limit) (e ∷ es) h = elim (Bool-cases (is_claimable now e)) [
  | inl c ↦ ground (arith, claim_rows-all worker_id now until limit es)
  | inr c ↦ ground (arith, claim_rows-all worker_id now until (suc limit) es)
]
