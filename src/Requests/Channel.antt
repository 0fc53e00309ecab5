-- ===== src/Requests/Channel.antt =====
-- frontend/lib/wxpusher-api.ts.
use charge_api.Prelude.{String, [], ◌∷◌, concat}
use charge_api.Api.Channel.{WxPusherChannelUpdateRequest}
use charge_api.Requests.{ApiRequest, get, post, patch, delete, plain, sending}

abbrev pub channel_path : String
channel_path = "/api/notification-channels/wxpusher"

unfoldable pub get_wxpusher_channel : ApiRequest (Unit {0})
get_wxpusher_channel = plain get channel_path "暂时无法读取微信提醒状态"

unfoldable pub create_wxpusher_bind_session : ApiRequest (Unit {0})
create_wxpusher_bind_session =
    plain post (concat (channel_path ∷ "/bind-sessions" ∷ [])) "暂时无法获取绑定二维码"

unfoldable pub poll_wxpusher_bind_session :
    (encode : String → String) → String → ApiRequest (Unit {0})
poll_wxpusher_bind_session encode session_id =
    plain get (concat (channel_path ∷ "/bind-sessions/" ∷ encode session_id ∷ [])) "暂时无法确认扫码结果"

unfoldable pub delete_wxpusher_channel : ApiRequest (Unit {0})
delete_wxpusher_channel = plain delete channel_path "暂时无法解除微信提醒绑定"

unfoldable pub update_wxpusher_channel :
    WxPusherChannelUpdateRequest → ApiRequest WxPusherChannelUpdateRequest
update_wxpusher_channel payload = sending patch channel_path payload "暂时无法保存微信提醒设置"

unfoldable pub test_wxpusher_channel : ApiRequest (Unit {0})
test_wxpusher_channel = plain post (concat (channel_path ∷ "/test" ∷ [])) "暂时无法发送测试消息"

unfoldable pub recheck_wxpusher_test_delivery : ApiRequest (Unit {0})
recheck_wxpusher_test_delivery =
    plain post (concat (channel_path ∷ "/test/recheck" ∷ [])) "暂时无法重新查询测试消息状态"
