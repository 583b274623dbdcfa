-- ===== src/Campaign.antt =====
-- app/services/events/lottery_campaign_service.py and direct_sale_campaign_service.py.
use i_dolly_backend.Concert.{manager_scope_violation, or_else}
use i_dolly_backend.Database.{Database}
use i_dolly_backend.Error.{ErrorClass, plain}
use i_dolly_backend.Prelude.{
  ℕ, Bool, true, false, not, Option, none, some, [], ◌∷◌, ◌++◌, ◌==◌, if◌then◌else◌, update,
}
use i_dolly_backend.Rows.{
  find_concert, find_ticket_type, find_lottery_campaign, find_direct_sale_campaign,
}
use i_dolly_backend.Schema.{CampaignStatus, DirectSaleCampaignStatus, is_direct}
use i_dolly_backend.Session.{Service, pure, query, found, raise_if, modify, commit, ◌>>=◌, ◌>>◌}
use i_dolly_backend.Tables.{Uuid, Time, User, Concert, LotteryCampaign, DirectSaleCampaign}

-- `concert.company_id if concert else None`
abbrev pub company_of : Option Concert → Option Uuid
company_of none = none
company_of (some concert) = some concert.company_id

-- `_company_id_for_ticket_type`
unfoldable pub company_id_for_ticket_type : Uuid → Database → Option Uuid
company_id_for_ticket_type ticket_type_id db = elim (find_ticket_type ticket_type_id db) [
  | none ↦ none
  | some tier ↦ company_of (find_concert tier.concert_id db)
]

-- The checks of the two `add_campaign`s; they differ in the sale method that they want.
unfoldable pub check_new_campaign : Bool → Uuid → User → Service (Unit {0})
check_new_campaign direct ticket_type_id current_user = do
  tier ← found (plain ErrorClass.not_found) (← query (find_ticket_type ticket_type_id))
  raise_if (plain ErrorClass.bad_request)
      (if direct then not (is_direct tier.sale_method) else is_direct tier.sale_method)
  concert ← found (plain ErrorClass.not_found) (← query (find_concert tier.concert_id))
  raise_if (plain ErrorClass.forbidden)
      (manager_scope_violation current_user (some concert.company_id))

-- LotteryCampaignService.add_campaign
unfoldable pub add_lottery_campaign : LotteryCampaign → User → Service LotteryCampaign
add_lottery_campaign campaign current_user = do
  check_new_campaign false campaign.ticket_type_id current_user
  modify (λ db. record db { lottery_campaigns = db.lottery_campaigns ++ campaign ∷ [] })
  commit
  pure campaign

pub record LotteryCampaignUpdate : Type 0 where
  pub entry_start_at : Time
  pub entry_end_at : Time
  pub payment_deadline_hours : ℕ
  pub status : Option CampaignStatus

-- LotteryCampaignService.update_campaign
unfoldable pub update_lottery_campaign :
    Uuid → LotteryCampaignUpdate → User → Service LotteryCampaign
update_lottery_campaign id' u current_user = do
  campaign ← found (plain ErrorClass.not_found) (← query (find_lottery_campaign id'))
  raise_if (plain ErrorClass.forbidden) (
      manager_scope_violation current_user
        (← query (company_id_for_ticket_type campaign.ticket_type_id)))
  let campaign' : LotteryCampaign = record campaign {
    entry_start_at = u.entry_start_at;
    entry_end_at = u.entry_end_at;
    payment_deadline_hours = u.payment_deadline_hours;
    status = or_else u.status campaign.status;
  }
  modify (λ db. record db {
    lottery_campaigns = update (λ x. x.id == id') (λ _. campaign') db.lottery_campaigns;
  })
  commit
  pure campaign'

-- DirectSaleCampaignService.add_campaign
unfoldable pub add_direct_sale_campaign : DirectSaleCampaign → User → Service DirectSaleCampaign
add_direct_sale_campaign campaign current_user = do
  check_new_campaign true campaign.ticket_type_id current_user
  modify (λ db. record db { direct_sale_campaigns = db.direct_sale_campaigns ++ campaign ∷ [] })
  commit
  pure campaign

pub record DirectSaleCampaignUpdate : Type 0 where
  pub sale_start_at : Time
  pub sale_end_at : Time
  pub status : Option DirectSaleCampaignStatus

-- DirectSaleCampaignService.update_campaign
unfoldable pub update_direct_sale_campaign :
    Uuid → DirectSaleCampaignUpdate → User → Service DirectSaleCampaign
update_direct_sale_campaign id' u current_user = do
  campaign ← found (plain ErrorClass.not_found) (← query (find_direct_sale_campaign id'))
  raise_if (plain ErrorClass.forbidden) (
      manager_scope_violation current_user
        (← query (company_id_for_ticket_type campaign.ticket_type_id)))
  let campaign' : DirectSaleCampaign = record campaign {
    sale_start_at = u.sale_start_at;
    sale_end_at = u.sale_end_at;
    status = or_else u.status campaign.status;
  }
  modify (λ db. record db {
    direct_sale_campaigns = update (λ x. x.id == id') (λ _. campaign') db.direct_sale_campaigns;
  })
  commit
  pure campaign'
