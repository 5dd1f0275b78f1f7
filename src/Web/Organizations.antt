-- ===== src/Web/Organizations.antt =====
-- web/routes/organization.py, the handlers of forms. `user_id` is the signed-in user, whom the
-- middleware asks for; texts of forms come stripped.
pub mod Guards
pub mod Members
use landlord_cli.Organization
use landlord_cli.Billing
use landlord_cli.Prelude.{
  Bool, List, Option, String, [], contains, false, if◌then◌else◌, nat_eq, none, not, some,
  string_eq, true, ℕ, ◌&&◌, ◌==◌, ◌∷◌,
}
use landlord_cli.Sql.{updated}
use landlord_cli.Errors.{err, format, value_error}
use landlord_cli.Models.{Billing, Organization, OrganizationMember}
use landlord_cli.Web.{
  Response, W, Web, call, caught, choose, flash, flash_redirect, log, pure, query, redirect,
  set_session, try_call, web_entry, with_some, ◌>>=◌, ◌>>◌,
}
use landlord_cli.Json.{bool, dict, nat, str}
use landlord_cli.Audit.{Entry, Stamp}
use landlord_cli.Audit.Serializers.{serialize_invite, serialize_organization}
use landlord_cli.Invite.{get_by_uuid, send_invite}
use landlord_cli.Authorization.{can_transfer_billing}
use landlord_cli.Mfa.Service.{has_any_mfa}
use landlord_cli.Db.{M}

abbrev pub org_roles : List String
org_roles = "admin" ∷ "manager" ∷ "viewer" ∷ []

abbrev pub org_path : String → String
org_path org_uuid = format ("/organizations/" ∷ org_uuid ∷ [])

abbrev not_found : W Response
not_found = flash_redirect "Organização não encontrada." "danger" "/organizations/"

abbrev pub is_admin : Option OrganizationMember → Bool
is_admin none = false
is_admin (some member) = member.role == "admin"

-- How the handlers of an organization begin: the organization is looked up, and the user is one of its
-- administrators.
unfoldable pub as_admin : String → ℕ → (Organization → W Response) → W Response
as_admin org_uuid user_id k = do
  found ← query (λ w. Organization.get_by_uuid org_uuid w.db)
  with_some found not_found λ org. do
    member ← query (λ w. Organization.get_member org.id user_id w.db)
    choose (not (is_admin member)) (flash_redirect "Acesso negado." "danger" (org_path org_uuid))
        (k org)

-- The entry of an event of an organization.
abbrev pub org_entry : String → ℕ → Organization → Web → Entry
org_entry event_type user_id org w =
    record (web_entry event_type (some user_id) w.session.username) {
      entity_type = "organization";
      entity_id = some org.id;
      entity_uuid = org.uuid;
    }

-- `target_member.role if target_member else ""`
abbrev pub role_or_empty : Option OrganizationMember → String
role_or_empty none = ""
role_or_empty (some member) = member.role

unfoldable pub organization_create : String → ℕ → String → ℕ → ℕ → Stamp → W Response
organization_create name user_id uuid created_now joined_now stamp =
    choose (name == "") (flash_redirect "Nome é obrigatório." "danger" "/organizations/create") do
      org ← call (Organization.create_organization name user_id uuid created_now joined_now)
      entry ← query (org_entry "organization.create" user_id org)
      log (record entry { new_state = some (serialize_organization org) }) stamp
      flash_redirect (format ("Organização '" ∷ org.name ∷ "' criada com sucesso!" ∷ [])) "success"
          (org_path org.uuid)

unfoldable pub organization_edit : String → String → ℕ → ℕ → Stamp → W Response
organization_edit org_uuid name user_id now stamp = as_admin org_uuid user_id λ org.
    choose (name == "")
      (flash_redirect "Nome é obrigatório." "danger"
        (format ("/organizations/" ∷ org_uuid ∷ "/edit" ∷ [])))
      do
        updated ← call (Organization.update (record org { name = name }) now)
        entry ← query (org_entry "organization.update" user_id updated)
        log
            (record entry {
              previous_state = some (serialize_organization org);
              new_state = some (serialize_organization updated);
            })
            stamp
        flash_redirect "Organização atualizada com sucesso!" "success" (org_path org_uuid)

unfoldable pub organization_delete : String → ℕ → ℕ → Stamp → W Response
organization_delete org_uuid user_id now stamp = as_admin org_uuid user_id λ org. do
  call (Organization.delete org.id now)
  entry ← query (org_entry "organization.delete" user_id org)
  log (record entry { previous_state = some (serialize_organization org) }) stamp
  flash_redirect (format ("Organização '" ∷ org.name ∷ "' excluída." ∷ [])) "success"
      "/organizations/"

unfoldable pub member_change_role : String → ℕ → String → ℕ → Stamp → W Response
member_change_role org_uuid member_user_id new_role user_id stamp = as_admin org_uuid user_id λ org.
    choose (not (contains new_role org_roles))
      (flash_redirect "Papel inválido." "danger" (org_path org_uuid))
      do
        target ← query (λ w. Organization.get_member org.id member_user_id w.db)
        call (Organization.update_member_role org.id member_user_id new_role)
        entry ← query (org_entry "organization.update_member_role" user_id org)
        log
            (record entry {
              previous_state = some (dict (("role", str (role_or_empty target)) ∷ []));
              new_state = some (dict (("role", str new_role) ∷ []));
            })
            stamp
        flash_redirect "Papel atualizado com sucesso!" "success" (org_path org_uuid)

unfoldable pub member_remove : String → ℕ → ℕ → Stamp → W Response
member_remove org_uuid member_user_id user_id stamp = as_admin org_uuid user_id λ org.
    choose (member_user_id == user_id)
      (flash_redirect "Você não pode remover a si mesmo." "danger" (org_path org_uuid))
      do
        target ← query (λ w. Organization.get_member org.id member_user_id w.db)
        call (Organization.remove_member org.id member_user_id)
        entry ← query (org_entry "organization.remove_member" user_id org)
        log
            (record entry {
              previous_state = some (
                  dict (
                    ("org_id", nat org.id)
                    ∷ ("user_id", nat member_user_id)
                    ∷ ("role", str (role_or_empty target))
                    ∷ []));
            })
            stamp
        flash_redirect "Membro removido." "success" (org_path org_uuid)

unfoldable pub organization_invite : String → String → String → ℕ → String → ℕ → Stamp → W Response
organization_invite org_uuid username role user_id uuid now stamp = as_admin org_uuid user_id λ org.
    choose (username == "")
      (flash_redirect "Nome de usuário é obrigatório." "danger" (org_path org_uuid))
      do
        sent ← try_call (send_invite org.id username role user_id uuid now)
        caught sent (λ e. flash_redirect e "danger" (org_path org_uuid))
            λ invite. do
              entry ← query (λ w. web_entry "invite.send" (some user_id) w.session.username)
              log
                  (record entry {
                    entity_type = "invite";
                    entity_id = some invite.row.id;
                    entity_uuid = invite.row.uuid;
                    new_state = some (serialize_invite invite);
                  })
                  stamp
              flash_redirect (format ("Convite enviado para '" ∷ username ∷ "'!" ∷ [])) "success"
                  (org_path org_uuid)

-- An administrator who demands a second factor and has none must set one up.
unfoldable pub organization_toggle_mfa : String → ℕ → ℕ → Stamp → W Response
organization_toggle_mfa org_uuid user_id now stamp = as_admin org_uuid user_id λ org. do
  call (Organization.set_enforce_mfa org.id (not org.enforce_mfa) now)
  entry ← query (org_entry "organization.update_mfa" user_id org)
  log
      (record entry {
        previous_state = some (dict (("enforce_mfa", bool org.enforce_mfa) ∷ []));
        new_state = some (dict (("enforce_mfa", bool (not org.enforce_mfa)) ∷ []));
      })
      stamp
  flash
      (format
        ("Exigência de MFA " ∷ (if org.enforce_mfa then "desativada" else "ativada") ∷ "." ∷ []))
      "success"
  lacks ← query (λ w. not (has_any_mfa user_id w.db))
  set_session (λ s. record s {
    mfa_setup_required = if not org.enforce_mfa && lacks then true else s.mfa_setup_required;
  })
  pure (redirect (org_path org_uuid))

-- Without an id the billing is not found.
abbrev transfer_found : Option ℕ → ℕ → ℕ → M (Unit {0})
transfer_found none org_id now db = (err (value_error "Billing not found"), db)
transfer_found (some id) org_id now db = Billing.transfer_to_organization id org_id now db

unfoldable pub organization_transfer_billing : String → String → ℕ → ℕ → W Response
organization_transfer_billing org_uuid billing_uuid user_id now = as_admin org_uuid user_id λ org.
    choose (billing_uuid == "")
      (flash_redirect "Selecione uma cobrança." "danger" (org_path org_uuid))
      do
        found ← query (λ w. Billing.get_by_uuid billing_uuid w.db)
        with_some found (flash_redirect "Cobrança não encontrada." "danger" (org_path org_uuid))
            λ billing.
              choose (not (can_transfer_billing user_id billing))
                (flash_redirect "Acesso negado." "danger" (org_path org_uuid))
                do
                  done ← try_call (transfer_found billing.id org.id now)
                  caught done (λ e. flash_redirect e "danger" (org_path org_uuid))
                      λ _.
                        flash_redirect "Cobrança transferida com sucesso!" "success"
                          (org_path org_uuid)
