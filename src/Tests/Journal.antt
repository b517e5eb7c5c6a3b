-- ===== src/Tests/Journal.antt =====
-- src/domain/financialLedger.ts on two entries, the second of which is not balanced.
use fuse_agent_control_plane.Base.{ℤ, pos, Option, some, List, [], ◌∷◌, String, ◌≡◌, refl}
use fuse_agent_control_plane.Domain.FinancialLedger.{
  JournalEntry, empty_ledger, balance, balance_key,
}
use fuse_agent_control_plane.Domain.FinancialLedger.Conservation.{
  append_all, total, journal_conserves,
}
use fuse_agent_control_plane.Domain.FinancialLedger.Balance.{journal_to, balance-journal}

abbrev parse_all : String → Option ℤ
parse_all s = some (pos 0)

abbrev funding : JournalEntry
funding = record {
  id = "e1";
  actor_id = "treasury";
  causation_id = "c1";
  occurred_at = "now";
  description = "funding";
  postings =
      record { account_id = "cash"; asset_id = "usdc"; side = "debit"; amount_atomic = pos 100 }
      ∷ record {
        account_id = "equity";
        asset_id = "usdc";
        side = "credit";
        amount_atomic = pos 100;
      }
      ∷ [];
}

abbrev unbalanced : JournalEntry
unbalanced = record funding {
  id = "e2";
  postings =
      record { account_id = "cash"; asset_id = "usdc"; side = "debit"; amount_atomic = pos 100 }
      ∷ record { account_id = "equity"; asset_id = "usdc"; side = "credit"; amount_atomic = pos 1 }
      ∷ [];
}

journal_conserves_example :
    total (append_all parse_all empty_ledger (funding ∷ unbalanced ∷ [])).balances ≡ pos 0
journal_conserves_example = journal_conserves parse_all (funding ∷ unbalanced ∷ [])

cash_balance :
    balance (append_all parse_all empty_ledger (funding ∷ unbalanced ∷ [])) "cash" "usdc" ≡ pos 100
unfolding balance fuse_agent_control_plane.Base.lookup append_all
    fuse_agent_control_plane.Domain.FinancialLedger.append fuse_agent_control_plane.Base.is_blank
    fuse_agent_control_plane.Domain.FinancialLedger.add_totals
    fuse_agent_control_plane.Domain.FinancialLedger.check_posting
    fuse_agent_control_plane.Domain.FinancialLedger.check_balanced
    fuse_agent_control_plane.Base.insert fuse_agent_control_plane.Base.◌+ℤ◌
    fuse_agent_control_plane.Domain.FinancialLedger.post_all
cash_balance = refl

balance-journal_example :
    balance (append_all parse_all empty_ledger (funding ∷ unbalanced ∷ [])) "cash" "usdc"
    ≡ journal_to
        (balance_key "cash" "usdc")
        (append_all parse_all empty_ledger (funding ∷ unbalanced ∷ [])).journal
balance-journal_example = balance-journal parse_all (funding ∷ unbalanced ∷ []) "cash" "usdc"
