-- ===== src/Requests/Watch.antt =====
-- frontend/lib/watch-api.ts.
use charge_api.Prelude.{
  ℕ, Option, String, [], ◌∷◌, concat, decimal, is_truthy, get_or, if◌then◌else◌,
}
use charge_api.Api.{
  NotificationPreferenceUpdateRequest, NotificationStatusFilter, all, unread, pending, resolved,
  WatchRuleCreateRequest, WatchRuleUpdateRequest,
}
use charge_api.Workbench.Query.{Params, set}
use charge_api.Requests.{ApiRequest, get, post, patch, delete, plain, sending}

abbrev pub status_name : NotificationStatusFilter → String
status_name all = "all"
status_name unread = "unread"
status_name pending = "pending"
status_name resolved = "resolved"

unfoldable pub overview : ApiRequest (Unit {0})
overview = plain get "/api/watch-overview" "加载空闲提醒额度失败"

unfoldable pub rules : ApiRequest (Unit {0})
rules = plain get "/api/watch-rules" "加载空闲提醒列表失败"

unfoldable pub preference : ApiRequest (Unit {0})
preference = plain get "/api/notification-preferences" "加载免打扰设置失败"

unfoldable pub create_rule : WatchRuleCreateRequest → ApiRequest WatchRuleCreateRequest
create_rule payload = sending post "/api/watch-rules" payload "创建空闲提醒失败"

unfoldable pub update_preference :
    NotificationPreferenceUpdateRequest → ApiRequest NotificationPreferenceUpdateRequest
update_preference payload = sending patch "/api/notification-preferences" payload "更新免打扰设置失败"

unfoldable pub mark_all_notifications_read : ApiRequest (Unit {0})
mark_all_notifications_read = plain post "/api/notifications/read-all" "全部标记已读失败，请稍后重试"

unfoldable pub clear_resolved_notifications : ApiRequest (Unit {0})
clear_resolved_notifications = plain delete "/api/notifications/resolved" "清理已解决通知失败，请稍后重试"

module _ (encode : String → String) where
  unfoldable pub update_rule : String → WatchRuleUpdateRequest → ApiRequest WatchRuleUpdateRequest
  update_rule rule_id payload =
      sending patch (concat ("/api/watch-rules/" ∷ encode rule_id ∷ [])) payload "更新空闲提醒失败"

  unfoldable pub delete_rule : String → ApiRequest (Unit {0})
  delete_rule rule_id = plain delete (concat ("/api/watch-rules/" ∷ encode rule_id ∷ [])) "删除空闲提醒失败"

  unfoldable pub mark_notification_read : String → ApiRequest (Unit {0})
  mark_notification_read notification_id =
      plain post (concat ("/api/notifications/" ∷ encode notification_id ∷ "/read" ∷ []))
        "标记通知已读失败，请稍后重试"

-- The parameters of `notifications`, with its defaults.
unfoldable pub notification_params :
    Option NotificationStatusFilter → Option String → Option ℕ → Params
unfolding set decimal
notification_params status cursor limit =
    let query : Params =
      ("status", status_name (get_or status all)) ∷ ("limit", decimal (get_or limit 20)) ∷ [] in
    if is_truthy cursor then set "cursor" (get_or cursor "") query else query

unfoldable pub notifications :
    (to_string : Params → String)
    → Option NotificationStatusFilter
    → Option String
    → Option ℕ
    → ApiRequest (Unit {0})
unfolding notification_params
notifications to_string status cursor limit =
    plain get
      (concat ("/api/notifications?" ∷ to_string (notification_params status cursor limit) ∷ []))
      "加载通知失败，请稍后重试"
