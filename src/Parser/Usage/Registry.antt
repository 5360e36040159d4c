-- ===== src/Parser/Usage/Registry.antt =====
-- The calls of `command`: under which words a handler is reached. Those that stand in comments (the
-- patch of an access key, the transfer of an app, and sessions) are not there.
pub mod Reads
pub mod Accepted
use code_push.Common.{String, List, [], ◌∷◌}
use code_push.Parser.Usage.{Usage}
use code_push.Parser.Usage.Resources
use code_push.Parser.Usage.Deployments
use code_push.Parser.Usage.Account
use code_push.Parser.Usage.Releases
use code_push.Parser.Usage.Bundles

pub data Registered : List String → Usage → Type 0 where
  access_key_add : Registered ("access-key" ∷ "add" ∷ []) (Resources.access_key_add "add")
  access_key_remove :
      Registered ("access-key" ∷ "remove" ∷ []) (Resources.access_key_remove "remove")
  access_key_rm : Registered ("access-key" ∷ "rm" ∷ []) (Resources.access_key_remove "rm")
  access_key_list : Registered ("access-key" ∷ "list" ∷ []) (Resources.access_key_list "list")
  access_key_ls : Registered ("access-key" ∷ "ls" ∷ []) (Resources.access_key_list "ls")
  app_add : Registered ("app" ∷ "add" ∷ []) Resources.app_add
  app_remove : Registered ("app" ∷ "remove" ∷ []) (Resources.app_remove "remove")
  app_rm : Registered ("app" ∷ "rm" ∷ []) (Resources.app_remove "rm")
  app_rename : Registered ("app" ∷ "rename" ∷ []) Resources.app_rename
  app_list : Registered ("app" ∷ "list" ∷ []) (Resources.app_list "list")
  app_ls : Registered ("app" ∷ "ls" ∷ []) (Resources.app_list "ls")
  collaborator_add : Registered ("collaborator" ∷ "add" ∷ []) Resources.collaborator_add
  collaborator_remove :
      Registered ("collaborator" ∷ "remove" ∷ []) (Resources.remove_collaborator "remove")
  collaborator_rm : Registered ("collaborator" ∷ "rm" ∷ []) (Resources.remove_collaborator "rm")
  collaborator_list :
      Registered ("collaborator" ∷ "list" ∷ []) (Resources.list_collaborators "list")
  collaborator_ls : Registered ("collaborator" ∷ "ls" ∷ []) (Resources.list_collaborators "ls")
  debug : Registered ("debug" ∷ []) Account.debug
  deployment_add : Registered ("deployment" ∷ "add" ∷ []) Deployments.deployment_add
  deployment_clear :
      Registered ("deployment" ∷ "clear" ∷ []) (Deployments.deployment_history_clear "clear")
  deployment_remove :
      Registered ("deployment" ∷ "remove" ∷ []) (Deployments.deployment_remove "remove")
  deployment_rm : Registered ("deployment" ∷ "rm" ∷ []) (Deployments.deployment_remove "rm")
  deployment_rename : Registered ("deployment" ∷ "rename" ∷ []) Deployments.deployment_rename
  deployment_list : Registered ("deployment" ∷ "list" ∷ []) (Deployments.deployment_list "list")
  deployment_ls : Registered ("deployment" ∷ "ls" ∷ []) (Deployments.deployment_list "ls")
  deployment_history :
      Registered ("deployment" ∷ "history" ∷ []) (Deployments.deployment_history "history")
  deployment_h : Registered ("deployment" ∷ "h" ∷ []) (Deployments.deployment_history "h")
  link : Registered ("link" ∷ []) Account.link
  login : Registered ("login" ∷ []) Account.login
  logout : Registered ("logout" ∷ []) Account.logout
  patch : Registered ("patch" ∷ []) Releases.patch
  promote : Registered ("promote" ∷ []) Releases.promote
  register : Registered ("register" ∷ []) Account.register
  release : Registered ("release" ∷ []) Bundles.release
  release_cordova : Registered ("release-cordova" ∷ []) Bundles.release_cordova
  release_react : Registered ("release-react" ∷ []) Bundles.release_react
  rollback : Registered ("rollback" ∷ []) Releases.rollback
  whoami : Registered ("whoami" ∷ []) Account.whoami
