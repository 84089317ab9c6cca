-- ===== src/Referrals/Types.antt =====
-- The tables of `ReferralService` (packages/domain/referrals/src/referral.service.ts and
-- packages/db/prisma/schema.prisma).
use alice_uprm.Prelude.{ℕ, Option, List}
use alice_uprm.Prelude.Text.{Text}

pub record ReferralCode : Type 0 where
  pub id : ℕ
  pub tenant_id : ℕ
  pub tenant_user_id : ℕ
  pub code : Text
  pub status : Text
  pub expires_at : Option ℕ

pub record ReferralEdge : Type 0 where
  pub id : ℕ
  pub tenant_id : ℕ
  pub referrer_id : ℕ
  pub referred_id : ℕ
  pub source_code_id : ℕ
  pub attribution_method : Text
  pub locked_at : Option ℕ

pub record ReferralAncestry : Type 0 where
  pub tenant_id : ℕ
  pub ancestor_id : ℕ
  pub descendant_id : ℕ
  pub depth : ℕ
  pub created_at : ℕ

-- The columns of a tenant user that the chain of referrals reads.
pub record SourcedUser : Type 0 where
  pub id : ℕ
  pub tenant_id : ℕ
  pub source_tenant_user_id : Option ℕ
  pub joined_at : ℕ

pub record Referrals : Type 0 where
  pub codes : List ReferralCode
  pub edges : List ReferralEdge
  pub ancestry : List ReferralAncestry
  pub users : List SourcedUser
  pub next_id : ℕ

pub record CreateCodeInput : Type 0 where
  pub tenant_id : ℕ
  pub tenant_user_id : ℕ
  pub expires_at : Option ℕ

pub record ApplyCodeInput : Type 0 where
  pub tenant_id : ℕ
  pub referred_id : ℕ
  pub code : Text
