-- ===== src/Executor/Listing.antt =====
-- The commands that print lists; what they print is in Executor/Tables. `Q.all` is rejected as soon as
-- one of its promises is: the first of them in the list stands for the first in time.
use code_push.Common.{String, Bool, Option, List, [], ◌∷◌, ◌++◌, map, if◌then◌else◌}
use code_push.Common.Promise.{Done, done, error, Promise, resolved, rejected, pending}
use code_push.Management.{AccountManager, Operation}
use code_push.Management.Endpoints
use code_push.Executor.{Stored, Run, pure, or_throw, given, ◌>>=◌, ◌>>◌}
use code_push.Executor.Sdk.{Environment, Deployment, call}
use code_push.Executor.Connection.{deserialize_connection_info}
use code_push.Executor.Prompt.{throw_for_invalid_output_format}

abbrev pub both : Promise Done → Promise Done → Promise Done
both (rejected e) q = rejected e
both (resolved u) q = q
both pending (rejected e) = rejected e
both pending q = pending

-- `Q.all(runs)`: all of them have been started.
unfoldable pub all : List (Run Done) → Run Done
all [] = pure done
all (run ∷ runs) =
    let rest = all runs in
    record { effects = run.effects ++ rest.effects; result = both run.result rest.result }

module _ (env : Environment) (sdk : AccountManager) where
  unfoldable pub listing : Option String → Operation → Run Done
  unfolding call throw_for_invalid_output_format
  listing format operation = do throw_for_invalid_output_format format; call env sdk operation

  -- The call of `getDeploymentMetrics` for a deployment with a package.
  unfoldable pub metrics_of : String → Deployment → Run Done
  unfolding call
  metrics_of app deployment =
      given deployment.package_label (pure done)
        (λ label. call env sdk (Endpoints.get_deployment_metrics app deployment.name))

  unfoldable pub deployment_list : String → Option String → Bool → Run Done
  unfolding call throw_for_invalid_output_format all metrics_of
  deployment_list app format show_package = do
    throw_for_invalid_output_format format
    call env sdk (Endpoints.get_deployments app)
    if show_package
        then all (map (metrics_of app) (env.deployments sdk (Endpoints.get_deployments app)))
        else pure done

  unfoldable pub deployment_history : String → String → Option String → Run Done
  unfolding call throw_for_invalid_output_format all
  deployment_history app deployment format = do
    throw_for_invalid_output_format format
    all (
        call env sdk Endpoints.get_account_info
        ∷ call env sdk (Endpoints.get_deployment_history app deployment)
        ∷ call env sdk (Endpoints.get_deployment_metrics app deployment)
        ∷ [])

  -- The connection file is read again, and a field of it is read even where there is none.
  unfoldable pub whoami : Option Stored → Run Done
  unfolding call deserialize_connection_info
  whoami file = do
    call env sdk Endpoints.get_account_info
    connection ←
        or_throw (deserialize_connection_info env file)
          (error "Cannot read property 'noProxy' of undefined")
    pure done

  abbrev pub access_key_list : Option String → Run Done
  access_key_list format = listing format Endpoints.get_access_keys

  abbrev pub app_list : Option String → Run Done
  app_list format = listing format Endpoints.get_apps

  abbrev pub list_collaborators : String → Option String → Run Done
  list_collaborators app format = listing format (Endpoints.get_collaborators app)

  abbrev pub session_list : Option String → Run Done
  session_list format = listing format Endpoints.get_sessions
