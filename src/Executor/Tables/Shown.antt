-- ===== src/Executor/Tables/Shown.antt =====
-- The lists that commands print, as they are made of what the server sends.
use mathlib.Core.Option
use code_push.Common.{String, Bool, Option, List, map, if◌then◌else◌}
use code_push.Management.Sessions.{ServerAccessKey, AccessKey, Session, access_keys_of, sessions_of}
use code_push.Executor.Tables.{Display, Printed}
use code_push.Executor.Tables.Texts.{Package}
use code_push.Executor.Tables.Metrics.{DeploymentMetrics, with_metrics}
use code_push.Executor.Tables.Lists.{
  Deployment, print_access_keys, print_deployment_list, print_sessions,
}
use code_push.Executor.Tables.History.{print_deployment_history}

-- The metrics of its deployment are set in a package that is there.
abbrev pub with_package_metrics : (String → DeploymentMetrics) → Deployment → Deployment
unfolding with_metrics
with_package_metrics metrics deployment = record {
  key = deployment.key;
  name = deployment.name;
  package_object = Option.map (with_metrics (metrics deployment.name)) deployment.package_object;
}

module _ (env : Display) where
  -- What `deploymentList` prints, with the metrics that the server sends for each deployment.
  unfoldable pub shown_deployments :
      Option String
      → Bool
      → Bool
      → (String → DeploymentMetrics)
      → List Deployment
      → Printed (List Deployment)
  unfolding print_deployment_list with_metrics
  shown_deployments format display_keys show_package metrics deployments =
      print_deployment_list env format display_keys show_package
        (if show_package then map (with_package_metrics metrics) deployments else deployments)

  -- What `deploymentHistory` prints, for the account with an address.
  unfoldable pub shown_history :
      Option String → Bool → String → DeploymentMetrics → List Package → Printed (List Package)
  unfolding print_deployment_history with_metrics
  shown_history format display_author email metrics history =
      print_deployment_history env format display_author email (map (with_metrics metrics) history)

  -- What `accessKeyList` prints.
  unfoldable pub shown_access_keys : Option String → List ServerAccessKey → Printed (List AccessKey)
  unfolding print_access_keys access_keys_of
  shown_access_keys format keys = print_access_keys env format (access_keys_of keys)

  -- What `sessionList` prints.
  unfoldable pub shown_sessions : Option String → List ServerAccessKey → Printed (List Session)
  unfolding print_sessions sessions_of
  shown_sessions format keys = print_sessions env format (sessions_of env.now keys)
