-- ===== src/Domain/FinancialLedger/Balance.antt =====
-- A balance is the sum of the journal's postings to it.
use fuse_agent_control_plane.Base.{
  ℤ, pos, ◌+ℤ◌, int_laws, parts_of_eq, Option, List, [], ◌∷◌, ◌++◌, String, ◌==◌, eq_iff, Dict,
  lookup, insert, lookup-insert, ok, Outcome-cases, or_keep, if◌then◌else◌, ◌≡◌, refl, arith, inl,
  inr, Bool-cases,
}
use fuse_agent_control_plane.Domain.FinancialLedger.{
  JournalPosting, JournalEntry, FinancialLedger, empty_ledger, signed_amount, balance_key, post_all,
  append, balance, get_or,
}
use fuse_agent_control_plane.Domain.FinancialLedger.Conservation.{append_cases, append_all}

-- The postings to a key, added up.
abbrev pub posted_to : String → List JournalPosting → ℤ
posted_to key [] = pos 0
posted_to key (p ∷ ps) =
    (if balance_key p.account_id p.asset_id == key then signed_amount p else pos 0)
    +ℤ posted_to key ps

abbrev pub journal_to : String → List JournalEntry → ℤ
journal_to key [] = pos 0
journal_to key (e ∷ es) = posted_to key e.postings +ℤ journal_to key es

journal_to-snoc :
    (key : String) (es : List JournalEntry) (e : JournalEntry)
    → journal_to key (es ++ e ∷ []) ≡ journal_to key es +ℤ posted_to key e.postings
journal_to-snoc key [] e = omega int_laws
journal_to-snoc key (x ∷ es) e = omega (int_laws, parts_of_eq (journal_to-snoc key es e))

abbrev at_key : String → Dict ℤ → ℤ
at_key key balances = get_or (lookup key balances) (pos 0)

at_key-insert :
    (k key : String) (b : ℤ) (balances : Dict ℤ)
    → at_key key (insert k b balances) ≡ (if k == key then b else at_key key balances)
at_key-insert k key b balances = ground (arith, lookup-insert k key b balances)

at_key-post_all :
    (key : String) (ps : List JournalPosting) (balances : Dict ℤ)
    → at_key key (post_all ps balances) ≡ at_key key balances +ℤ posted_to key ps
unfolding post_all
at_key-post_all key [] balances = omega int_laws
at_key-post_all key (p ∷ ps) balances =
    let k = balance_key p.account_id p.asset_id in
    let new = at_key k balances +ℤ signed_amount p in
    let rest = at_key-post_all key ps (insert k new balances) in
    let first = at_key-insert k key new balances in
    elim (Bool-cases (k == key)) [
      | inl e ↦
          let same : k ≡ key = (eq_iff _ _).0 e in
          let first' : at_key key (insert k new balances) ≡ at_key key balances +ℤ signed_amount p =
            ground (arith, first, same) in
          rw e (omega (int_laws, parts_of_eq rest, parts_of_eq first'))
      | inr e ↦
          let first' : at_key key (insert k new balances) ≡ at_key key balances = rw e at first in
          rw e (omega (int_laws, parts_of_eq rest, parts_of_eq first'))
    ]

-- The books of a ledger: each balance is what the journal posted to it.
abbrev pub IsPosted : FinancialLedger → Type 0
IsPosted l = (key : String) → at_key key l.balances ≡ journal_to key l.journal

append-IsPosted :
    (date_parse : String → Option ℤ) (l : FinancialLedger) (e : JournalEntry) {l' : FinancialLedger}
    → append date_parse l e ≡ ok l'
    → IsPosted l
    → IsPosted l'
append-IsPosted date_parse l e h books key =
    let (totals, added, balanced, same) = append_cases date_parse l e h in
    rw (← same) (
      omega (
        int_laws,
        parts_of_eq (at_key-post_all key e.postings l.balances),
        parts_of_eq (journal_to-snoc key l.journal e),
        parts_of_eq (books key),
      ))

append_all-IsPosted :
    (date_parse : String → Option ℤ) (l : FinancialLedger) (es : List JournalEntry)
    → IsPosted l
    → IsPosted (append_all date_parse l es)
unfolding append_all
append_all-IsPosted date_parse l [] books = books
append_all-IsPosted date_parse l (e ∷ es) books = elim (Outcome-cases (append date_parse l e)) [
  | inl (l', h) ↦
      append_all-IsPosted date_parse (or_keep l (append date_parse l e)) es
        (rw h (append-IsPosted date_parse l e h books))
  | inr (x, h) ↦ append_all-IsPosted date_parse (or_keep l (append date_parse l e)) es (rw h books)
]

-- After any entries, the balance of an account in an asset is the sum of the signed amounts that the
-- journal's entries post under the key of that account and asset.
pub balance-journal :
    (date_parse : String → Option ℤ) (es : List JournalEntry) (account asset : String)
    → let l = append_all date_parse empty_ledger es in
      balance l account asset ≡ journal_to (balance_key account asset) l.journal
unfolding balance lookup
balance-journal date_parse es account asset =
    append_all-IsPosted date_parse empty_ledger es (λ key. refl) (balance_key account asset)
