-- ===== src/Domain/FinancialLedger.antt =====
-- src/domain/financialLedger.ts, the class FinancialLedger: a journal of balanced entries and the
-- balances that they leave. A call that throws leaves the ledger as it was. `Date.parse` is a
-- parameter, `none` where it gives NaN; the set of entry ids is a list of texts.
pub mod Balance
pub mod Conservation
use Prim.Native.String
use fuse_agent_control_plane.Base.{
  ℕ, ℤ, pos, ◌+ℤ◌, ◌-ℤ◌, leb_ℤ, eqb_ℤ, ltb, Bool, true, false, ◌&&◌, not, is_some, Option, none,
  some, List, [], ◌∷◌, ◌++◌, length, String, ◌==◌, is_blank, includes, Dict, lookup, insert, Result,
  ok, err, ◌>>=◌, ◌>>◌, throw_if, if◌then◌else◌,
}

pub record JournalPosting : Type 0 where
  pub account_id : String
  pub asset_id : String
  pub side : String
  pub amount_atomic : ℤ

pub record JournalEntry : Type 0 where
  pub id : String
  pub actor_id : String
  pub causation_id : String
  pub occurred_at : String
  pub description : String
  pub postings : List JournalPosting

pub record FinancialLedger : Type 0 where
  pub journal : List JournalEntry
  pub entry_ids : List String
  pub balances : Dict ℤ

pub data JournalError : Type 0 where
  entry_id_required entry_actor_required entry_causation_required : JournalError
  entry_description_required entry_occurred_at_invalid postings_required : JournalError
  entry_duplicate entry_unbalanced : String → JournalError
  posting_account_required posting_asset_required posting_side_invalid : JournalError
  posting_amount_invalid : JournalError

abbrev pub empty_ledger : FinancialLedger
empty_ledger = record { journal = []; entry_ids = []; balances = [] }

pub record Total : Type 0 where
  pub debits : ℤ
  pub credits : ℤ

-- `map.get(k) ?? d`.
abbrev pub get_or {ℓ} : {A : Type ℓ} → Option A → A → A
get_or none d = d
get_or (some a) d = a

-- Two texts joined by a NUL character.
unfoldable pub balance_key : String → String → String
balance_key account asset = String.◌++◌ account (String.◌++◌ "\0" asset)

unfoldable pub check_posting : JournalPosting → Result JournalError (Unit {0})
check_posting p =
    throw_if (is_blank p.account_id) posting_account_required
    >> throw_if (is_blank p.asset_id) posting_asset_required
    >> throw_if (not (p.side == "debit") && not (p.side == "credit")) posting_side_invalid
    >> throw_if (leb_ℤ p.amount_atomic (pos 0)) posting_amount_invalid

abbrev add_to_total : JournalPosting → Total → Total
add_to_total p t =
    if p.side == "debit"
    then record t { debits = t.debits +ℤ p.amount_atomic }
    else record t { credits = t.credits +ℤ p.amount_atomic }

abbrev no_total : Total
no_total = record { debits = pos 0; credits = pos 0 }

-- The first loop of `append`.
unfoldable pub add_totals : List JournalPosting → Dict Total → Result JournalError (Dict Total)
add_totals [] totals = ok totals
add_totals (p ∷ ps) totals =
    check_posting p
    >> add_totals ps
        (insert p.asset_id (add_to_total p (get_or (lookup p.asset_id totals) no_total)) totals)

-- The second loop of `append`.
unfoldable pub check_balanced : Dict Total → Result JournalError (Unit {0})
check_balanced [] = ok tt
check_balanced ((asset, t) ∷ totals) =
    throw_if (not (eqb_ℤ t.debits t.credits)) (entry_unbalanced asset) >> check_balanced totals

-- What a posting adds to its balance.
abbrev pub signed_amount : JournalPosting → ℤ
signed_amount p = if p.side == "debit" then p.amount_atomic else pos 0 -ℤ p.amount_atomic

-- The third loop of `append`.
unfoldable pub post_all : List JournalPosting → Dict ℤ → Dict ℤ
unfolding balance_key
post_all [] balances = balances
post_all (p ∷ ps) balances =
    let key = balance_key p.account_id p.asset_id in
    post_all ps (insert key (get_or (lookup key balances) (pos 0) +ℤ signed_amount p) balances)

-- The ledger with an entry that has passed every check.
abbrev pub posted : FinancialLedger → JournalEntry → FinancialLedger
posted l e = record {
  balances = post_all e.postings l.balances;
  entry_ids = l.entry_ids ++ e.id ∷ [];
  journal = l.journal ++ e ∷ [];
}

unfoldable pub append :
    (String → Option ℤ) → FinancialLedger → JournalEntry → Result JournalError FinancialLedger
append date_parse l e =
    throw_if (is_blank e.id) entry_id_required
    >> throw_if (is_blank e.actor_id) entry_actor_required
    >> throw_if (is_blank e.causation_id) entry_causation_required
    >> throw_if (is_blank e.description) entry_description_required
    >> throw_if (not (is_some (date_parse e.occurred_at))) entry_occurred_at_invalid
    >> throw_if (includes e.id l.entry_ids) (entry_duplicate e.id)
    >> throw_if (ltb (length e.postings) 2) postings_required
    >> (add_totals e.postings [] >>= λ totals. check_balanced totals >> ok (posted l e))

unfoldable pub balance : FinancialLedger → String → String → ℤ
unfolding balance_key
balance l account asset = get_or (lookup (balance_key account asset) l.balances) (pos 0)

unfoldable pub entries : FinancialLedger → List JournalEntry
entries l = l.journal
