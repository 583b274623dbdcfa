-- ===== src/Cascade/Deletions.antt =====
-- The deletions of app/services/events: ticket_service.py, ticket_type_service.py,
-- lottery_campaign_service.py and direct_sale_campaign_service.py.
use i_dolly_backend.Campaign.{company_id_for_ticket_type}
use i_dolly_backend.Cascade.{
  delete_direct_sale_campaigns, delete_lottery_campaigns, delete_ticket_types, delete_tickets,
}
use i_dolly_backend.Concert.{manager_scope_violation}
use i_dolly_backend.Error.{ErrorClass, plain}
use i_dolly_backend.Prelude.{some, ◌==◌}
use i_dolly_backend.Rows.{
  find_concert, find_direct_sale_campaign, find_lottery_campaign, find_ticket, find_ticket_type,
}
use i_dolly_backend.Session.{Service, pure, query, found, raise_if, modify, commit, ◌>>=◌, ◌>>◌}
use i_dolly_backend.Tables.{DirectSaleCampaign, LotteryCampaign, Ticket, TicketType, User, Uuid}

-- TicketService.delete_ticket
unfoldable pub delete_ticket : Uuid → Service Ticket
delete_ticket ticket_id' = do
  ticket ← found (plain ErrorClass.not_found) (← query (find_ticket ticket_id'))
  modify (delete_tickets (λ t. t.id == ticket.id))
  commit
  pure ticket

-- TicketTypeService.delete_ticket_type; the concert is there by the foreign key.
unfoldable pub delete_ticket_type : Uuid → User → Service TicketType
delete_ticket_type ticket_type_id' current_user = do
  tier ← found (plain ErrorClass.not_found) (← query (find_ticket_type ticket_type_id'))
  concert ← found (plain ErrorClass.attribute_error) (← query (find_concert tier.concert_id))
  raise_if (plain ErrorClass.forbidden)
      (manager_scope_violation current_user (some concert.company_id))
  modify (delete_ticket_types (λ x. x.id == tier.id))
  commit
  pure tier

-- LotteryCampaignService.delete_campaign
unfoldable pub delete_lottery_campaign : Uuid → User → Service LotteryCampaign
delete_lottery_campaign campaign_id' current_user = do
  campaign ← found (plain ErrorClass.not_found) (← query (find_lottery_campaign campaign_id'))
  raise_if (plain ErrorClass.forbidden) (
      manager_scope_violation current_user
        (← query (company_id_for_ticket_type campaign.ticket_type_id)))
  modify (delete_lottery_campaigns (λ c. c.id == campaign.id))
  commit
  pure campaign

-- DirectSaleCampaignService.delete_campaign
unfoldable pub delete_direct_sale_campaign : Uuid → User → Service DirectSaleCampaign
delete_direct_sale_campaign campaign_id' current_user = do
  campaign ← found (plain ErrorClass.not_found) (← query (find_direct_sale_campaign campaign_id'))
  raise_if (plain ErrorClass.forbidden) (
      manager_scope_violation current_user
        (← query (company_id_for_ticket_type campaign.ticket_type_id)))
  modify (delete_direct_sale_campaigns (λ c. c.id == campaign.id))
  commit
  pure campaign
