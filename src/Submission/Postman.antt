-- ===== src/Submission/Postman.antt =====
-- submission_service/postman.go: delivery of mails. The receiving goroutines are the list of mails
-- delivered to each client; a client is known by its mail id alone.
use flux_backend.Common.{
  ℕ, zero, suc, ◌+◌, ◌*◌, ◌≤◌, ◌<◌, false, List, [], ◌∷◌, ◌++◌, ◌≡◌, refl, Text_eq, ◌==◌,
  if◌then◌else◌, contains, delete_func, Bool-cases, inl, inr, arith, length,
}
use flux_backend.Submission.Model.{
  MailId, Mail, Body, mail_postman, invalid_mail_client, unregister_mail_client,
}

pub record Postman : Type 0 where
  pub mail_box : List Mail
  pub mail_clients : List MailId
  pub delivered : List Mail

unfoldable pub register_mail_client : Postman → MailId → Postman
register_mail_client p id =
    if contains p.mail_clients id then p else record p { mail_clients = id ∷ p.mail_clients }

unfoldable pub post_mail : Postman → Mail → Postman
post_mail p m = record p { mail_box = p.mail_box ++ m ∷ [] }

-- handlePostmanMails: a mail with another body is ignored.
unfoldable pub handle_postman_mails : Postman → Body → Postman
handle_postman_mails p (unregister_mail_client id) = record p {
  mail_clients = delete_func p.mail_clients (λ c. c == id);
}
handle_postman_mails p _ = p

abbrev pub inv_mail : Mail → Mail
inv_mail ml = record {
  from = mail_postman;
  to = ml.from;
  body = invalid_mail_client ml.to;
  priority = 20;
}

-- One round of deliverMails, for a mail that was taken from the box.
unfoldable pub deliver : Postman → Mail → Postman
unfolding handle_postman_mails post_mail
deliver p ml =
    if ml.to == mail_postman
    then handle_postman_mails p ml.body
    else if contains p.mail_clients ml.to
    then record p { delivered = ml ∷ p.delivered }
    else if ml.from == mail_postman
    then p
    else post_mail p (inv_mail ml)

deliver_next : (Postman → Postman) → Postman → List Mail → Postman
deliver_next more p [] = p
deliver_next more p (ml ∷ rest) = more (deliver (record p { mail_box = rest }) ml)

-- deliverMails, for as many rounds as the fuel allows, or until the box is empty.
unfoldable pub deliver_mails : ℕ → Postman → Postman
unfolding deliver_next
deliver_mails zero p = p
deliver_mails (suc fuel) p = deliver_next (deliver_mails fuel) p p.mail_box

-- A mail counts for two rounds, one of the postman for one.
weight : Mail → ℕ
weight ml = if ml.from == mail_postman then 1 else 2

weights : List Mail → ℕ
weights [] = 0
weights (m ∷ ms) = weight m + weights ms

weights-append : (xs ys : List Mail) → weights (xs ++ ys) ≡ weights xs + weights ys
unfolding weights
weights-append [] ys = omega arith
weights-append (x ∷ xs) ys = omega (arith, weights-append xs ys)

handled-mail_box : (p : Postman) (b : Body) → (handle_postman_mails p b).mail_box ≡ p.mail_box
unfolding handle_postman_mails
handled-mail_box p (unregister_mail_client id) = refl
handled-mail_box p _ = refl

weight_pos : (ml : Mail) → 0 < weight ml
unfolding weight
weight_pos ml = ground arith

weight_inv : (ml : Mail) → weight (inv_mail ml) ≡ 1
unfolding weight
weight_inv ml = refl

bounced :
    (p : Postman) (ml : Mail)
    → (ml.from == mail_postman) ≡ false
    → weights (p.mail_box ++ inv_mail ml ∷ []) < weight ml + weights p.mail_box
unfolding weights weight
bounced p ml e =
    let two : weight ml ≡ 2 = rw (e, weight) refl in
    omega (arith, weights-append p.mail_box (inv_mail ml ∷ []), weight_inv ml)

weights-deliver :
    (p : Postman) (ml : Mail) → weights (deliver p ml).mail_box < weight ml + weights p.mail_box
unfolding deliver
weights-deliver p ml = elim (Bool-cases (ml.to == mail_postman)) [
  | inl e ↦ rw (e, deliver) (rw (handled-mail_box p ml.body) (omega (arith, weight_pos ml)))
  | inr e ↦ elim (Bool-cases (contains p.mail_clients ml.to)) [
    | inl k ↦ rw (e, deliver) (rw k (omega (arith, weight_pos ml)))
    | inr k ↦ elim (Bool-cases (ml.from == mail_postman)) [
      | inl f ↦ rw (e, deliver) (rw k (rw f (omega (arith, weight_pos ml))))
      | inr f ↦ rw (e, deliver) (rw k (rw f (bounced p ml f)))
    ]
  ]
]

weights-le : (ms : List Mail) → weights ms ≤ 2 * length ms
unfolding weights weight
weights-le [] = omega arith
weights-le (m ∷ ms) = ground (arith, weights-le ms)

none_left : (ms : List Mail) → weights ms ≤ 0 → ms ≡ []
unfolding weights
none_left [] k = refl
none_left (m ∷ ms) k = absurd (omega (arith, weight_pos m))

empties-next :
    (more : Postman → Postman) (fuel : ℕ) (p : Postman) (ms : List Mail)
    → ((q : Postman) → weights q.mail_box ≤ fuel → (more q).mail_box ≡ [])
    → p.mail_box ≡ ms
    → weights ms ≤ suc fuel
    → (deliver_next more p ms).mail_box ≡ []
unfolding weights deliver_next
empties-next more fuel p [] h e k = e
empties-next more fuel p (ml ∷ rest) h e k =
    h (deliver (record p { mail_box = rest }) ml)
      (omega (arith, weights-deliver (record p { mail_box = rest }) ml))

empties :
    (fuel : ℕ) (p : Postman) → weights p.mail_box ≤ fuel → (deliver_mails fuel p).mail_box ≡ []
unfolding deliver_mails
empties zero p h = none_left p.mail_box h
empties (suc fuel) p h = empties-next (deliver_mails fuel) fuel p p.mail_box (empties fuel) refl h

-- The postman comes to rest: with no new mails posted, two rounds for each mail in the box empty it,
-- whatever clients are registered and whoever sent the mails.
pub deliver_mails_rest : (p : Postman) → (deliver_mails (2 * length p.mail_box) p).mail_box ≡ []
deliver_mails_rest p = empties (2 * length p.mail_box) p (weights-le p.mail_box)
