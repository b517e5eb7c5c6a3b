-- ===== src/Domain/FinancialLedger/Conservation.antt =====
-- The journal conserves value: what is debited is credited.
use fuse_agent_control_plane.Base.{
  ℤ, pos, ◌+ℤ◌, ◌-ℤ◌, int_laws, parts_of_eq, eqb_ℤ, eqb_ℤ→eq, Option, none, some, List, [], ◌∷◌,
  String, ◌==◌, Dict, lookup, insert, sum_by, sum_by-insert_new, sum_by-insert_old, ok, ◌≡◌, refl,
  ap, ◌∙◌, arith, inl, inr, Bool-cases, Option-cases, Result-cases, Outcome-cases, >>-eq-ok,
  >>=-eq-ok, ok-injective, or_keep,
}
use fuse_agent_control_plane.Domain.FinancialLedger.{
  JournalPosting, JournalEntry, FinancialLedger, empty_ledger, Total, check_posting, add_to_total,
  no_total, add_totals, check_balanced, signed_amount, balance_key, post_all, posted, append,
  get_or,
}

abbrev net : Total → ℤ
net t = t.debits -ℤ t.credits

abbrev pub sum_postings : List JournalPosting → ℤ
sum_postings [] = pos 0
sum_postings (p ∷ ps) = signed_amount p +ℤ sum_postings ps

sum_by-insert_first :
    {V : Type 0} (f : V → ℤ) (k : String) (new : V) (d : ℤ) (m : Dict V)
    → lookup k m ≡ none
    → f new ≡ d
    → sum_by f (insert k new m) ≡ sum_by f m +ℤ d
sum_by-insert_first f k new d m e n = sum_by-insert_new f k new m e ∙ ap (◌+ℤ◌ (sum_by f m)) n

sum_by-insert_more :
    {V : Type 0} (f : V → ℤ) (k : String) (old new : V) (d : ℤ) (m : Dict V)
    → lookup k m ≡ some old
    → f new ≡ f old +ℤ d
    → sum_by f (insert k new m) ≡ sum_by f m +ℤ d
sum_by-insert_more f k old new d m e n =
    omega (int_laws, parts_of_eq (sum_by-insert_old f k old new m e), parts_of_eq n)

net-add_to_total :
    (p : JournalPosting) (t : Total) → net (add_to_total p t) ≡ net t +ℤ signed_amount p
net-add_to_total p t = elim (Bool-cases (p.side == "debit")) [
  | inl e ↦ rw e (omega int_laws)
  | inr e ↦ rw e (omega int_laws)
]

net-no_total : (p : JournalPosting) → net (add_to_total p no_total) ≡ signed_amount p
net-no_total p = omega (int_laws, parts_of_eq (net-add_to_total p no_total))

sum_by-net-post :
    (p : JournalPosting) (totals : Dict Total)
    → sum_by net
        (insert p.asset_id (add_to_total p (get_or (lookup p.asset_id totals) no_total)) totals)
      ≡ sum_by net totals +ℤ signed_amount p
sum_by-net-post p totals = elim (Option-cases (lookup p.asset_id totals)) [
  | inl e ↦ rw e (
      sum_by-insert_first net p.asset_id (add_to_total p no_total) (signed_amount p) totals e
        (net-no_total p))
  | inr (t, e) ↦ rw e (
      sum_by-insert_more net p.asset_id t (add_to_total p t) (signed_amount p) totals e
        (net-add_to_total p t))
]

add_totals-net :
    (ps : List JournalPosting) (totals : Dict Total) {totals' : Dict Total}
    → add_totals ps totals ≡ ok totals'
    → sum_by net totals' ≡ sum_by net totals +ℤ sum_postings ps
unfolding add_totals
add_totals-net [] totals {totals'} e =
    let same : totals ≡ totals' = cc in rw (← same) (omega int_laws)
add_totals-net (p ∷ ps) totals e = elim (Result-cases (check_posting p)) [
  | inr (x, bad) ↦ absurd (ground (arith, bad))
  | inl good ↦ omega (
    int_laws,
    parts_of_eq (sum_by-net-post p totals),
    parts_of_eq (add_totals-net ps _ (rw good at e)),
  )
]

check_balanced-net :
    (totals : Dict Total) → check_balanced totals ≡ ok tt → sum_by net totals ≡ pos 0
unfolding check_balanced
check_balanced-net [] e = refl
check_balanced-net ((asset, t) ∷ totals) e = elim (Bool-cases (eqb_ℤ t.debits t.credits)) [
  | inr bad ↦ absurd (ground (arith, bad))
  | inl good ↦ omega (
    int_laws,
    parts_of_eq (eqb_ℤ→eq t.debits t.credits good),
    parts_of_eq (check_balanced-net totals (rw good at e)),
  )
]

abbrev pub total : Dict ℤ → ℤ
total = sum_by (λ b. b)

total-post_all :
    (ps : List JournalPosting) (balances : Dict ℤ)
    → total (post_all ps balances) ≡ total balances +ℤ sum_postings ps
unfolding post_all
total-post_all [] balances = omega int_laws
total-post_all (p ∷ ps) balances =
    let key = balance_key p.account_id p.asset_id in
    let new = get_or (lookup key balances) (pos 0) +ℤ signed_amount p in
    let step : total (insert key new balances) ≡ total balances +ℤ signed_amount p =
      elim (Option-cases (lookup key balances)) [
        | inl e ↦
            sum_by-insert_first (λ b. b) key new (signed_amount p) balances e
              (rw e (omega int_laws))
        | inr (b, e) ↦
            sum_by-insert_more (λ b. b) key b new (signed_amount p) balances e (rw e refl)
      ] in
    omega (int_laws, parts_of_eq step, parts_of_eq (total-post_all ps (insert key new balances)))

-- An entry that is accepted changes the balances by its postings, whose debits and credits are
-- equal in sum, and is added to the journal.
pub append_cases :
    (date_parse : String → Option ℤ) (l : FinancialLedger) (e : JournalEntry) {l' : FinancialLedger}
    → append date_parse l e ≡ ok l'
    → (totals : Dict Total) × (add_totals e.postings [] ≡ ok totals)
      × (check_balanced totals ≡ ok tt)
      × (posted l e ≡ l')
unfolding append
append_cases date_parse l e h =
    let (_, rest) = >>-eq-ok _ _ h in
    let (totals, added, done) = >>=-eq-ok (add_totals e.postings []) _ rest in
    let (balanced, made) = >>-eq-ok (check_balanced totals) _ done in
    (totals, added, balanced, ok-injective made)

append-total :
    (date_parse : String → Option ℤ) (l : FinancialLedger) (e : JournalEntry) {l' : FinancialLedger}
    → append date_parse l e ≡ ok l'
    → total l'.balances ≡ total l.balances
append-total date_parse l e h =
    let (totals, added, balanced, same) = append_cases date_parse l e h in
    rw (← same) (
      omega (
        int_laws,
        parts_of_eq (total-post_all e.postings l.balances),
        parts_of_eq (add_totals-net e.postings [] added),
        parts_of_eq (check_balanced-net totals balanced),
      ))

-- A ledger after a list of entries, of which those that are refused change nothing.
unfoldable pub append_all :
    (String → Option ℤ) → FinancialLedger → List JournalEntry → FinancialLedger
append_all date_parse l [] = l
append_all date_parse l (e ∷ es) = append_all date_parse (or_keep l (append date_parse l e)) es

append_step-total :
    (date_parse : String → Option ℤ) (l : FinancialLedger) (e : JournalEntry)
    → total (or_keep l (append date_parse l e)).balances ≡ total l.balances
append_step-total date_parse l e = elim (Outcome-cases (append date_parse l e)) [
  | inl (l', h) ↦ rw h (append-total date_parse l e h)
  | inr (x, h) ↦ rw h
]

append_all-total :
    (date_parse : String → Option ℤ) (l : FinancialLedger) (es : List JournalEntry)
    → total (append_all date_parse l es).balances ≡ total l.balances
unfolding append_all
append_all-total date_parse l [] = refl
append_all-total date_parse l (e ∷ es) =
    append_all-total date_parse (or_keep l (append date_parse l e)) es
    ∙ append_step-total date_parse l e

-- Whatever entries are offered to an empty ledger, its balances add up to zero.
pub journal_conserves :
    (date_parse : String → Option ℤ) (es : List JournalEntry)
    → total (append_all date_parse empty_ledger es).balances ≡ pos 0
journal_conserves date_parse es = append_all-total date_parse empty_ledger es
