-- ===== src/Prototype/Samples.antt =====
-- The sample watches, notices, users, incidents, entries of the audit and invites of
-- frontend/app/prototype/model.ts.
use charge_api.Prelude.{true, false, none, some, List, [], ◌∷◌}
use charge_api.Types.Admin.{unbound, healthy, expired}
use charge_api.Prototype.Model.{
  user, admin, DemoWatch, one_hour, two_hours, WatchStatus, active, notified, DemoNotice,
  pile_available, pile_offline, pile_recovered, credential_expired, submitted, no_delivery,
  DemoUser, DemoIncident, warning, critical, unhandled, acknowledged, DemoAudit, success,
  DemoInvite,
}

abbrev pub watches : List DemoWatch
watches =
    record {
      id = "watch-1";
      device_id = "202609100002";
      duration = two_hours;
      status = active;
      created_at = "2026-09-10T18:20:00+08:00";
      expires_at = "2026-09-10T20:20:00+08:00";
      next_check_at = "2026-09-10T18:45:00+08:00";
    }
    ∷ record {
      id = "watch-2";
      device_id = "202609100001";
      duration = one_hour;
      status = notified;
      created_at = "2026-09-10T17:40:00+08:00";
      expires_at = "2026-09-10T18:40:00+08:00";
      next_check_at = "";
    }
    ∷ record {
      id = "watch-3";
      device_id = "202609100003";
      duration = two_hours;
      status = WatchStatus.expired;
      created_at = "2026-09-09T16:00:00+08:00";
      expires_at = "2026-09-09T18:00:00+08:00";
      next_check_at = "";
    }
    ∷ []

abbrev pub notices : List DemoNotice
notices =
    record {
      id = "notice-1";
      device_id = some "202609100001";
      port_id = some 3;
      type = pile_available;
      title = "北门车棚有空闲口了";
      message = "3 号口已空闲，这次等待已结束。出发前可以再确认一下状态。";
      created_at = "2026-09-10T18:35:00+08:00";
      read = false;
      resolved = false;
      delivery = submitted;
    }
    ∷ record {
      id = "notice-2";
      device_id = some "202609100004";
      port_id = none;
      type = pile_offline;
      title = "科创园 B 座暂时无法连接";
      message = "连续 3 次未能读取状态，已保留最近快照。可以稍后刷新或检查现场供电。";
      created_at = "2026-09-10T18:10:00+08:00";
      read = false;
      resolved = false;
      delivery = submitted;
    }
    ∷ record {
      id = "notice-3";
      device_id = some "202609100003";
      port_id = none;
      type = pile_recovered;
      title = "南门车棚恢复连接";
      message = "已重新读取到充电口状态。";
      created_at = "2026-09-10T16:24:00+08:00";
      read = true;
      resolved = false;
      delivery = no_delivery;
    }
    ∷ record {
      id = "notice-4";
      device_id = none;
      port_id = none;
      type = credential_expired;
      title = "充电平台登录已恢复";
      message = "9 月 9 日的登录失效问题已解决，现在可以正常刷新。";
      created_at = "2026-09-09T12:30:00+08:00";
      read = true;
      resolved = true;
      delivery = no_delivery;
    }
    ∷ []

abbrev pub users : List DemoUser
users =
    record {
      id = "user-1";
      username = "linyi";
      role = user;
      enabled = true;
      device_count = 4;
      device_limit = 10;
      refresh_enabled = true;
      credential = healthy;
      last_active = "18:42";
      requests = 36;
      sessions = 2;
    }
    ∷ record {
      id = "user-2";
      username = "chenmo";
      role = user;
      enabled = true;
      device_count = 3;
      device_limit = 10;
      refresh_enabled = true;
      credential = expired;
      last_active = "18:38";
      requests = 18;
      sessions = 1;
    }
    ∷ record {
      id = "user-3";
      username = "zhouzhou";
      role = user;
      enabled = true;
      device_count = 2;
      device_limit = 10;
      refresh_enabled = true;
      credential = healthy;
      last_active = "17:20";
      requests = 24;
      sessions = 1;
    }
    ∷ record {
      id = "user-4";
      username = "xiaoman";
      role = user;
      enabled = false;
      device_count = 0;
      device_limit = 5;
      refresh_enabled = false;
      credential = unbound;
      last_active = "9 月 8 日";
      requests = 0;
      sessions = 0;
    }
    ∷ record {
      id = "admin-1";
      username = "admin";
      role = admin;
      enabled = true;
      device_count = 0;
      device_limit = 0;
      refresh_enabled = false;
      credential = unbound;
      last_active = "现在";
      requests = 0;
      sessions = 1;
    }
    ∷ []

abbrev pub incidents : List DemoIncident
incidents =
    record {
      id = "issue-1";
      user_id = "user-2";
      title = "充电平台登录失效";
      detail = "自动恢复未成功，需要该用户重新扫码登录。最近一次恢复：18:35。";
      level = critical;
      status = unhandled;
      occurrences = 3;
      time = "18:35";
      note = "";
    }
    ∷ record {
      id = "issue-2";
      user_id = "user-1";
      title = "充电桩持续离线";
      detail = "科创园 · B 座（608204）连续三次未返回端口状态，请检查网络或现场供电。";
      level = warning;
      status = unhandled;
      occurrences = 3;
      time = "18:10";
      note = "";
    }
    ∷ record {
      id = "issue-3";
      user_id = "user-3";
      title = "微信投递等待重试";
      detail = "供应商暂时不可用，通知已保存在站内。尚未确认送达手机。";
      level = warning;
      status = acknowledged;
      occurrences = 1;
      time = "17:52";
      note = "等待下次自动重试。";
    }
    ∷ []

abbrev pub audit : List DemoAudit
audit =
    record {
      id = "audit-1";
      action = "调整设备上限";
      target = "linyi · 10 台";
      time = "今天 17:30";
      result = success;
    }
    ∷ record {
      id = "audit-2";
      action = "确认异常";
      target = "微信投递等待重试";
      time = "今天 17:54";
      result = success;
    }
    ∷ record {
      id = "audit-3";
      action = "更新提醒策略";
      target = "检查间隔 5 分钟";
      time = "昨天 10:20";
      result = success;
    }
    ∷ []

abbrev pub invites : List DemoInvite
invites =
    record {
      id = "invite-1";
      code = "GARDEN-2026";
      enabled = true;
      uses = 2;
      expires = "2026-09-30";
    }
    ∷ record {
      id = "invite-2";
      code = "SUMMER-2026";
      enabled = false;
      uses = 4;
      expires = "2026-08-31";
    }
    ∷ []
