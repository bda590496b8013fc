-- ===== src/Alerts/Tests.antt =====
-- backend/src/psychron/domain/alerts.py. The rules at concrete levels.
