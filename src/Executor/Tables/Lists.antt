-- ===== src/Executor/Tables/Lists.antt =====
-- The tables of apps, collaborators, deployments, access keys and sessions.
use code_push.Common.{
  String, ◌<>◌, ◌==◌, Bool, true, false, Option, List, [], ◌∷◌, ◌++◌, eqb, leb, map, if◌then◌else◌,
}
use code_push.Management.Sessions.{AccessKey, Session}
use code_push.Executor.Tables.{Display, Printed, printed, magenta, dim, format_date}
use code_push.Executor.Tables.Texts.{Package, text_of}
use code_push.Executor.Tables.Metrics.{get_package_string, get_package_metrics_string}

-- What the table shows of an `App`.
pub record App : Type 0 where
  pub name : String
  pub deployments : List String

-- A `Deployment`
pub record Deployment : Type 0 where
  pub key : Option String
  pub name : String
  pub package_object : Option Package

-- `join(", ")`
abbrev join : List String → String
join [] = ""
join (s ∷ []) = s
join (s ∷ next ∷ l) = s <> ", " <> join (next ∷ l)

module _ (env : Display) where
  -- `printAppList`
  unfoldable pub print_app_list : Option String → List App → Printed (List App)
  print_app_list format apps =
      printed format apps ("Name" ∷ "Deployments" ∷ [])
        (map (λ app. app.name ∷ env.wordwrap 50 (join app.deployments) ∷ []) apps)

  -- `getCollaboratorDisplayName`
  unfoldable pub get_collaborator_display_name : String → String → String
  get_collaborator_display_name email permission =
      if permission == "Owner" then email <> env.chalk magenta " (Owner)" else email

  -- `printCollaboratorsList`, of the addresses with their permissions.
  unfoldable pub print_collaborators_list :
      Option String → List (String × String) → Printed (List (String × String))
  unfolding get_collaborator_display_name
  print_collaborators_list format collaborators =
      printed format collaborators ("E-mail Address" ∷ [])
        (map (λ c. get_collaborator_display_name c.0 c.1 ∷ []) collaborators)

  -- `printDeploymentList`
  unfoldable pub print_deployment_list :
      Option String → Bool → Bool → List Deployment → Printed (List Deployment)
  unfolding get_package_string get_package_metrics_string
  print_deployment_list format display_keys show_package deployments =
      printed format deployments
        ("Name" ∷ (if display_keys then "Deployment Key" ∷ [] else [])
          ++ (if show_package then "Update Metadata" ∷ "Install Metrics" ∷ [] else []))
        (map
          (λ deployment.
            deployment.name ∷ (if display_keys then text_of deployment.key ∷ [] else [])
            ++ (if show_package
                then get_package_string env deployment.package_object
                  ∷ get_package_metrics_string env deployment.package_object
                  ∷ []
                else []))
          deployments)

  -- `isExpired`
  abbrev pub is_expired : AccessKey → Bool
  is_expired key = leb key.expires env.now

  -- `keyToTableRow`
  unfoldable pub key_to_table_row : AccessKey → Bool → List String
  unfolding format_date
  key_to_table_row key is_dim =
      let row : List String =
        key.name ∷ (if eqb key.created_time 0 then "" else format_date env key.created_time) ∷ [] in
      if is_dim then map (env.chalk dim) row else row

  -- One of the two loops over the keys, which takes those that are expired or those that are not.
  unfoldable pub rows_of : Bool → List AccessKey → List (List String)
  unfolding key_to_table_row
  rows_of true [] = []
  rows_of false [] = []
  rows_of true (key ∷ keys) =
      let rest = rows_of true keys in
      if is_expired key then key_to_table_row key true ∷ rest else rest
  rows_of false (key ∷ keys) =
      let rest = rows_of false keys in
      if is_expired key then rest else key_to_table_row key false ∷ rest

  -- `printAccessKeys`
  unfoldable pub print_access_keys : Option String → List AccessKey → Printed (List AccessKey)
  unfolding rows_of
  print_access_keys format keys =
      printed format keys ("Name" ∷ "Created" ∷ []) (rows_of false keys ++ rows_of true keys)

  -- `printSessions`
  unfoldable pub print_sessions : Option String → List Session → Printed (List Session)
  unfolding format_date
  print_sessions format sessions =
      printed format sessions ("Machine" ∷ "Logged in" ∷ []) (
        map (λ session. session.machine_name ∷ format_date env session.logged_in_time ∷ [])
          sessions)
